-- ===== src/Base/Text.antt =====
-- Text as code points, and the methods of Python's `str` that the program uses on it.
use Prim.Native.Nat.{ℕ, zero, suc, ◌+◌}
use Prim.Native.Char.{code}
use Prim.Native.String.{String}
use mathlib.Core.Path.{◌≡◌, refl, ap, ◌∙◌, sym}
use mathlib.Core.Logic.{◌↔◌, ◌≢◌, inl, inr}
use mathlib.Core.Bool.{Bool, true, false, ◌&&◌, ◌||◌}
use mathlib.Core.List.{List, [], ◌∷◌, ◌++◌, map, append_assoc}
use native.Mathlib.Omega.{arith}
use openmodel.Base.Tests.{◌==◌, ltb, if◌then◌else◌, Bool-cases}

abbrev pub Text : Type 0
Text = List ℕ

-- The code points of a literal.
abbrev pub codes : String → Text
codes String.[] = []
codes (String.◌∷◌ c s) = code c ∷ codes s

-- `s == t`.
unfoldable pub same : Text → Text → Bool
same [] [] = true
same [] (c ∷ t) = false
same (c ∷ s) [] = false
same (c ∷ s) (d ∷ t) = c == d && same s t

pub same_iff : (s t : Text) → (same s t ≡ true) ↔ (s ≡ t)
unfolding same
same_iff [] [] = (λ h. refl, λ h. refl)
same_iff [] (c ∷ t) = (λ h. cc, λ h. cc)
same_iff (c ∷ s) [] = (λ h. cc, λ h. cc)
same_iff (c ∷ s) (d ∷ t) =
    let (f, g) = same_iff s t in
    (λ h. ground (arith, f (ground arith)), λ h. ground (arith, g (ground arith)))

abbrev pub is_empty : Text → Bool
is_empty [] = true
is_empty (c ∷ s) = false

-- `s.replace(c, by)` for one character.
unfoldable pub replace : ℕ → Text → Text → Text
replace c by [] = []
replace c by (d ∷ s) = (if d == c then by else d ∷ []) ++ replace c by s

-- `s.rstrip(c)`.
unfoldable pub rstrip : ℕ → Text → Text
rstrip c [] = []
rstrip c (d ∷ s) = let r = rstrip c s in if d == c && is_empty r then [] else d ∷ r

abbrev pub onto_head : ℕ → List Text → List Text
onto_head c [] = (c ∷ []) ∷ []
onto_head c (p ∷ ps) = (c ∷ p) ∷ ps

-- `s[n:]`.
abbrev pub drop : ℕ → Text → Text
drop zero s = s
drop (suc n) [] = []
drop (suc n) (c ∷ s) = drop n s

-- `s[:n]`.
abbrev pub take : ℕ → Text → Text
take zero s = []
take (suc n) [] = []
take (suc n) (c ∷ s) = c ∷ take n s

abbrev pub lower_code : ℕ → ℕ
lower_code c = if ltb c b'A' || ltb b'Z' c then c else c + 32

-- `s.lower()` of an ASCII text.
abbrev pub lower : Text → Text
lower = map lower_code

-- `"".join(parts)`.
abbrev pub concat : List Text → Text
concat [] = []
concat (p ∷ ps) = p ++ concat ps

-- `s.split(sep)` for one character; never empty.
unfoldable pub split : ℕ → Text → List Text
split sep [] = [] ∷ []
split sep (c ∷ s) = let r = split sep s in if c == sep then [] ∷ r else onto_head c r

-- `parts[-1]`.
unfoldable pub last_part : List Text → Text
last_part [] = []
last_part (p ∷ []) = p
last_part (p ∷ q ∷ ps) = last_part (q ∷ ps)

-- `sep.join(parts)`.
unfoldable pub join : Text → List Text → Text
join sep [] = []
join sep (p ∷ []) = p
join sep (p ∷ q ∷ ps) = p ++ (sep ++ join sep (q ∷ ps))

-- `s.startswith(t)`.
unfoldable pub starts_with : Text → Text → Bool
starts_with s [] = true
starts_with [] (c ∷ t) = false
starts_with (d ∷ s) (c ∷ t) = d == c && starts_with s t

-- `t in s`.
unfoldable pub contains : Text → Text → Bool
contains t [] = is_empty t
contains t (c ∷ s) = starts_with (c ∷ s) t || contains t s

-- `s.endswith(t)`.
unfoldable pub ends_with : Text → Text → Bool
ends_with [] t = is_empty t
ends_with (c ∷ s) t = same (c ∷ s) t || ends_with s t

-- No character of the text is `c`.
abbrev pub Lacks : ℕ → Text → Type 0
Lacks c [] = Unit
Lacks c (d ∷ s) = (d ≢ c) × Lacks c s

pub Lacks-append : (c : ℕ) (s t : Text) → Lacks c s → Lacks c t → Lacks c (s ++ t)
Lacks-append c [] t h k = k
Lacks-append c (d ∷ s) t (n, h) k = (n, Lacks-append c s t h k)

pub replace_of_Lacks : (c : ℕ) (by s : Text) → Lacks c s → replace c by s ≡ s
unfolding replace
replace_of_Lacks c by [] h = refl
replace_of_Lacks c by (d ∷ s) (n, h) = ground (arith, replace_of_Lacks c by s h)

pub replace-append :
    (c : ℕ) (by s t : Text) → replace c by (s ++ t) ≡ replace c by s ++ replace c by t
unfolding replace
replace-append c by [] t = refl
replace-append c by (d ∷ s) t =
    rw (replace-append c by s t)
      (sym (append_assoc (if d == c then by else d ∷ []) (replace c by s) (replace c by t)))

pub rstrip_of_Lacks : (c : ℕ) (s : Text) → Lacks c s → rstrip c s ≡ s
unfolding rstrip
rstrip_of_Lacks c [] h = refl
rstrip_of_Lacks c (d ∷ s) (n, h) = ground (arith, rstrip_of_Lacks c s h)

-- A part without the separator, behind one, is left whole by `rstrip`.
pub rstrip-append : (c : ℕ) (s t : Text) → Lacks c t → t ≢ [] → rstrip c (s ++ t) ≡ s ++ t
unfolding rstrip
rstrip-append c [] t h ne = rstrip_of_Lacks c t h
rstrip-append c (d ∷ s) t h ne = ground (arith, rstrip-append c s t h ne, full s)
  where
    full : (s : Text) → s ++ t ≢ []
    full [] = ne
    full (x ∷ s) = cc

pub split_of_Lacks : (c : ℕ) (s : Text) → Lacks c s → split c s ≡ s ∷ []
unfolding split
split_of_Lacks c [] h = refl
split_of_Lacks c (d ∷ s) (n, h) = ground (arith, split_of_Lacks c s h)

last_part-cons : (p : Text) (ps : List Text) → ps ≢ [] → last_part (p ∷ ps) ≡ last_part ps
unfolding last_part
last_part-cons p [] ne = absurd (ne refl)
last_part-cons p (q ∷ ps) ne = refl

split-ne-nil : (c : ℕ) (s : Text) → split c s ≢ []
unfolding split
split-ne-nil c [] = cc
split-ne-nil c (d ∷ s) = elim (Bool-cases (d == c)) [
  | inl e ↦ ground arith
  | inr e ↦ ground (arith, head (split c s))
]
  where
    head : (ps : List Text) → onto_head d ps ≢ []
    head [] = cc
    head (p ∷ ps) = cc

split_at : (c : ℕ) (t : Text) → split c (c ∷ t) ≡ [] ∷ split c t
unfolding split
split_at c t = ground arith

split_on :
    (c d : ℕ) (s p : Text) (ps : List Text)
    → split c s ≡ p ∷ ps
    → split c (d ∷ s) ≡ (if d == c then [] ∷ p ∷ ps else (d ∷ p) ∷ ps)
unfolding split
split_on c d s p ps e = rw (e, split) refl

-- The parts of a text that ends in a separator and a part.
abbrev Ends : Text → List Text → Type 0
Ends t parts = (p : Text) × (ps : List Text) × (parts ≡ p ∷ ps) × (ps ≢ []) × (last_part ps ≡ t)

split-Ends : (c : ℕ) (s t : Text) → Lacks c t → Ends t (split c (s ++ c ∷ t))
split-Ends c [] t h = (
  [],
  t ∷ [],
  split_at c t ∙ ap (λ ps. [] ∷ ps) (split_of_Lacks c t h),
  cc,
  unfold last_part in refl,
)
split-Ends c (d ∷ s) t h =
    let (p, ps, e, ne, l) = split-Ends c s t h in
    elim (Bool-cases (d == c)) [
      | inl x ↦ ([], p ∷ ps, split_on c d _ p ps e ∙ (rw x), cc, last_part-cons p ps ne ∙ l)
      | inr x ↦ (d ∷ p, ps, split_on c d _ p ps e ∙ (rw x), ne, l)
    ]

-- What stands behind the last separator is the last part.
pub last-split : (c : ℕ) (s t : Text) → Lacks c t → last_part (split c (s ++ c ∷ t)) ≡ t
last-split c s t h =
    let (p, ps, e, ne, l) = split-Ends c s t h in ap last_part e ∙ last_part-cons p ps ne ∙ l
