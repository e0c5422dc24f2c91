-- ===== src/Receipt/Character.antt =====
-- A reader of one character of a JSON text, as `json.dumps` writes it for
-- src/py-inference/src/inference/receipt.py.
use openmodel.Base.{
  Option-cases, ℕ, ◌+◌, ◌-◌, ◌*◌, ◌/◌, ◌%◌, ◌<◌, ◌≤◌, ◌≡◌, ◌⊎◌, refl, inl, inr, ◌&&◌, [], ◌∷◌, ◌++◌,
  Option, none, some, arith, if◌then◌else◌, ltb, leb, ◌==◌, Bool-cases, true, false,
}
use mathlib.Core.List.{append_assoc}
use openmodel.Base.Text.{Text}
use openmodel.Receipt.Json.{quote, backslash, hex_digit, hex4, short_escape, long_escape, json_char}

unhex : ℕ → Option ℕ
unhex c =
    if leb b'0' c && leb c b'9'
    then some (c - b'0')
    else if leb b'a' c && leb c b'f'
    then some (c - b'a' + 10)
    else none

abbrev combine : Option ℕ → Option ℕ → Option ℕ
combine (some a) (some b) = some (a * 16 + b)
combine _ _ = none

-- The number of `\uXXXX`, and what follows.
read_unit : Text → Option (ℕ × Text)
unfolding unhex
read_unit (b ∷ u ∷ p ∷ q ∷ r ∷ s ∷ rest) =
    if b == backslash && u == b'u'
    then elim (combine (combine (combine (unhex p) (unhex q)) (unhex r)) (unhex s)) [
      | none ↦ none
      | some n ↦ some (n, rest)
    ]
    else none
read_unit _ = none

unhex_lem : (d : ℕ) → d < 16 → unhex (hex_digit d) ≡ some d
unfolding unhex hex_digit
unhex_lem d h = ground arith

read_unit-hex4 : (n : ℕ) (rest : Text) → n < 65536 → read_unit (hex4 n ++ rest) ≡ some (n, rest)
unfolding read_unit hex4
read_unit-hex4 n rest h =
    rw
      (
        unhex_lem (n / 4096 % 16) (omega arith),
        unhex_lem (n / 256 % 16) (omega arith),
        unhex_lem (n / 16 % 16) (omega arith),
        unhex_lem (n % 16) (omega arith),
      )
      (ground arith)

unescape : ℕ → Option ℕ
unescape l =
    if l == quote
    then some quote
    else if l == backslash
    then some backslash
    else if l == b'n'
    then some 10
    else if l == b'r'
    then some 13
    else if l == b't'
    then some 9
    else if l == b'f'
    then some 12
    else if l == b'b'
    then some 8
    else none

-- A unit above 0xd7ff and below 0xdc00 opens a pair.
read_long : Text → Option (ℕ × Text)
read_long t = elim (read_unit t) [
  | none ↦ none
  | some (n, rest) ↦
      if leb 0xd800 n && ltb n 0xdc00
      then elim (read_unit rest) [
        | none ↦ none
        | some (m, rest') ↦ some (65536 + (n - 0xd800) * 1024 + (m - 0xdc00), rest')
      ]
      else some (n, rest)
]

read_escape : Text → Option (ℕ × Text)
unfolding unescape read_long
read_escape [] = none
read_escape (l ∷ rest) =
    if l == b'u'
    then read_long (backslash ∷ l ∷ rest)
    else elim (unescape l) [ none ↦ none | some c ↦ some (c, rest) ]

pub read_char : Text → Option (ℕ × Text)
unfolding read_escape
read_char [] = none
read_char (c ∷ s) = if c == backslash then read_escape s else some (c, s)

pub read_char_nil : read_char [] ≡ none
unfolding read_char
read_char_nil = refl

-- A code point that UTF-8 can encode.
abbrev pub IsScalarValue : ℕ → Type 0
IsScalarValue c = (c < 0xd800) ⊎ ((0xe000 ≤ c) × (c < 0x110000))

-- What `json.dumps` writes for one character is read back.
short_read :
    (c l : ℕ) (rest : Text)
    → short_escape c ≡ some l
    → read_char (backslash ∷ l ∷ rest) ≡ some (c, rest)
unfolding short_escape read_char
short_read c l rest h = ground arith

read_escape-hex4 :
    (n : ℕ) (rest : Text) → read_escape (b'u' ∷ rest) ≡ read_long (backslash ∷ b'u' ∷ rest)
unfolding read_escape
read_escape-hex4 n rest = refl

read_char-hex4 : (n : ℕ) (rest : Text) → read_char (hex4 n ++ rest) ≡ read_long (hex4 n ++ rest)
unfolding read_char hex4
read_char-hex4 n rest = refl

read_long_one :
    (n : ℕ) (rest : Text)
    → n < 65536
    → (leb 0xd800 n && ltb n 0xdc00) ≡ false
    → read_long (hex4 n ++ rest) ≡ some (n, rest)
unfolding read_long
read_long_one n rest h out = rw (read_unit-hex4 n rest h, read_long) (rw out)

read_long_pair :
    (n m : ℕ) (rest : Text)
    → n < 65536
    → m < 65536
    → (leb 0xd800 n && ltb n 0xdc00) ≡ true
    → read_long (hex4 n ++ (hex4 m ++ rest))
      ≡ some (65536 + (n - 0xd800) * 1024 + (m - 0xdc00), rest)
unfolding read_long
read_long_pair n m rest h k opens =
    rw (read_unit-hex4 n (hex4 m ++ rest) h, read_long) (rw (opens, read_unit-hex4 m rest k))

long_read :
    (c : ℕ) (rest : Text)
    → IsScalarValue c
    → short_escape c ≡ none
    → read_char (long_escape c ++ rest) ≡ some (c, rest)
unfolding long_escape
long_read c rest v none_short = elim (Bool-cases (leb 32 c && leb c 126)) [
  | inl plain ↦ rw plain (unfold read_char short_escape in ground arith)
  | inr odd ↦ elim (Bool-cases (ltb c 65536)) [
    | inl small ↦
        rw (odd, small, read_char-hex4 c rest) (read_long_one c rest (ground arith) (ground arith))
    | inr large ↦
        rw
          (
            odd,
            large,
            append_assoc (hex4 (0xd800 + (c - 65536) / 1024)) (hex4 (0xdc00 + (c - 65536) % 1024))
                rest,
            read_char-hex4 (0xd800 + (c - 65536) / 1024)
                (hex4 (0xdc00 + (c - 65536) % 1024) ++ rest),
          )
          (rw
            (read_long_pair (0xd800 + (c - 65536) / 1024) (0xdc00 + (c - 65536) % 1024) rest
              (ground arith) (ground arith) (ground arith))
            (ground arith))
  ]
]

pub read_char-json_char :
    (c : ℕ) (rest : Text) → IsScalarValue c → read_char (json_char c ++ rest) ≡ some (c, rest)
unfolding json_char
read_char-json_char c rest v = elim (Option-cases (short_escape c)) [
  | inl e ↦ rw (e, json_char) (long_read c rest v e)
  | inr (l, e) ↦ rw (e, json_char) (short_read c l rest e)
]
