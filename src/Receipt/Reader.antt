-- ===== src/Receipt/Reader.antt =====
-- A reader of JSON texts, which shows that `json.dumps` in src/py-inference/src/inference/receipt.py
-- loses nothing.
use openmodel.Base.{
  All, zero, suc, length, Option-cases, ℕ, ◌+◌, ◌<◌, ◌≤◌, ◌≡◌, ◌≢◌, refl, inl, inr, Bool, ◌&&◌, [],
  ◌∷◌, ◌++◌, Option, none, some, arith, if◌then◌else◌, ltb, leb, ◌==◌, Bool-cases, true, false,
}
use mathlib.Core.List.{append_assoc}
use openmodel.Base.Text.{Text}
use openmodel.Receipt.Json.{
  quote, hex4, short_escape, long_escape, json_char, json_chars, json_dumps,
}
use openmodel.Receipt.Character.{read_char, read_char_nil, IsScalarValue, read_char-json_char}

json_char-ne-nil : (c : ℕ) → json_char c ≢ []
unfolding json_char long_escape hex4
json_char-ne-nil c = ground arith

-- The text up to the closing quote, and what follows it. The fuel is above the text's length.
read_chars : ℕ → Text → Option (Text × Text)
read_chars zero s = none
read_chars (suc f) [] = none
read_chars (suc f) (c ∷ s) = elim (c == quote) [
  | true ↦ some ([], s)
  | false ↦ elim (read_char (c ∷ s)) [
    | none ↦ none
    | some (d, rest) ↦ elim (read_chars f rest) [
      | none ↦ none
      | some (ds, rest') ↦ some (d ∷ ds, rest')
    ]
  ]
]

abbrev opens_quote : Text → Bool
opens_quote [] = false
opens_quote (c ∷ s) = c == quote

-- Nothing that stands for a character opens with a quote.
json_char-opens : (c : ℕ) (rest : Text) → opens_quote (json_char c ++ rest) ≡ false
unfolding json_char short_escape long_escape hex4
json_char-opens c rest = elim (Option-cases (short_escape c)) [
  | inl e ↦ elim (Bool-cases (leb 32 c && leb c 126)) [
    | inl plain ↦ rw (e, json_char, plain) (ground arith)
    | inr odd ↦ elim (Bool-cases (ltb c 65536)) [
      | inl small ↦ rw (e, json_char, odd, small) refl
      | inr large ↦ rw (e, json_char, odd, large) refl
    ]
  ]
  | inr (l, e) ↦ rw (e, json_char) refl
]

read_chars-at :
    (f c : ℕ) (s rest ds after : Text)
    → opens_quote s ≡ false
    → read_char s ≡ some (c, rest)
    → read_chars f rest ≡ some (ds, after)
    → read_chars (suc f) s ≡ some (c ∷ ds, after)
unfolding read_chars
read_chars-at f c [] rest ds after q e ih = ground (arith, read_char_nil)
read_chars-at f c (d ∷ s) rest ds after q e ih = ground arith

read_chars-json_chars :
    (s rest : Text) (f : ℕ)
    → length s < f
    → All IsScalarValue s
    → read_chars f (json_chars s ++ quote ∷ rest) ≡ some (s, rest)
unfolding json_chars
read_chars-json_chars s rest zero h v = absurd (omega arith)
read_chars-json_chars [] rest (suc f) h v = unfold read_chars in refl
read_chars-json_chars (c ∷ s) rest (suc f) h (w, v) =
    rw (append_assoc (json_char c) (json_chars s) (quote ∷ rest)) (
      read_chars-at f c _ (json_chars s ++ quote ∷ rest) s rest
        (json_char-opens c (json_chars s ++ quote ∷ rest))
        (read_char-json_char c (json_chars s ++ quote ∷ rest) w)
        (read_chars-json_chars s rest f (omega arith) v))

-- A JSON text at the head of a text, and what follows it.
pub read_json : Text → Option (Text × Text)
unfolding read_chars
read_json [] = none
read_json (c ∷ s) = if c == quote then read_chars (suc (length s)) s else none

length-append_quote : (s t : Text) → length t ≤ length (s ++ t)
length-append_quote [] t = omega arith
length-append_quote (c ∷ s) t = omega (arith, length-append_quote s t)

le-json_chars : (s : Text) → length s ≤ length (json_chars s)
unfolding json_chars
le-json_chars [] = omega arith
le-json_chars (c ∷ s) =
    omega (arith, le-json_chars s, longer (json_char c) (json_chars s) (json_char-ne-nil c))
  where
    longer : (p t : Text) → p ≢ [] → length t + 1 ≤ length (p ++ t)
    longer [] t h = absurd (h refl)
    longer (d ∷ p) t h = omega (arith, length-append_quote p t)

length-append_le : (s t : Text) → length s ≤ length (s ++ t)
length-append_le [] t = omega arith
length-append_le (c ∷ s) t = omega (arith, length-append_le s t)

-- What `json.dumps` writes is read back, whatever follows.
pub read_json-json_dumps :
    (s rest : Text) → All IsScalarValue s → read_json (json_dumps s ++ rest) ≡ some (s, rest)
unfolding read_json json_dumps
read_json-json_dumps s rest v = rw (append_assoc (json_chars s) (quote ∷ []) rest) (
    read_chars-json_chars s rest (suc (length (json_chars s ++ quote ∷ rest)))
      (omega (arith, le-json_chars s, length-append_le (json_chars s) (quote ∷ rest))) v)
