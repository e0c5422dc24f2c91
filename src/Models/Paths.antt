-- ===== src/Models/Paths.antt =====
-- src/py-inference/src/model/foc_real.py: the tests of `_safe_extractall` on the texts of paths say what
-- they should about the paths, since no component holds a separator.
use openmodel.Base.{
  ◌≡◌, ◌≢◌, ◌↔◌, ◌⊎◌, inl, inr, refl, sym, ap, ◌∙◌, ℕ, true, false, ◌||◌, List, [], ◌∷◌, ◌++◌,
  arith, ◌==◌, Bool-cases,
}
use mathlib.Core.List.{append_assoc}
use openmodel.Base.Text.{
  Text, codes, same, same_iff, is_empty, split, starts_with, Lacks, onto_head,
}
use openmodel.Models.Cids.{AllLack}
use openmodel.Models.Archive.{parent, enter, walk, resolve, path_text, is_below}

AllLack-append : (c : ℕ) (ps qs : List Text) → AllLack c ps → AllLack c qs → AllLack c (ps ++ qs)
AllLack-append c [] qs h k = k
AllLack-append c (p ∷ ps) qs (l, h) k = (l, AllLack-append c ps qs h k)

onto_head-AllLack : (c d : ℕ) (ps : List Text) → d ≢ c → AllLack c ps → AllLack c (onto_head d ps)
onto_head-AllLack c d [] n h = ((n, tt), tt)
onto_head-AllLack c d (p ∷ ps) n (l, h) = ((n, l), h)

split-AllLack : (c : ℕ) (s : Text) → AllLack c (split c s)
unfolding split
split-AllLack c [] = (tt, tt)
split-AllLack c (d ∷ s) = elim (Bool-cases (d == c)) [
  | inl e ↦ rw e (tt, split-AllLack c s)
  | inr e ↦ rw e (onto_head-AllLack c d (split c s) (ground arith) (split-AllLack c s))
]

pub parent-AllLack : (c : ℕ) (ps : List Text) → AllLack c ps → AllLack c (parent ps)
unfolding parent
parent-AllLack c [] h = tt
parent-AllLack c (p ∷ []) h = tt
parent-AllLack c (p ∷ q ∷ ps) (l, h) = (l, parent-AllLack c (q ∷ ps) h)

enter-AllLack :
    (c : ℕ) (base : List Text) (p : Text) → AllLack c base → Lacks c p → AllLack c (enter base p)
unfolding enter
enter-AllLack c base p h l = elim (Bool-cases (is_empty p || same p (codes "."))) [
  | inl e ↦ rw (e, enter) h
  | inr e ↦ elim (Bool-cases (same p (codes ".."))) [
    | inl u ↦ rw (e, u, enter) (parent-AllLack c base h)
    | inr u ↦ rw (e, u, enter) (AllLack-append c base (p ∷ []) h (l, tt))
  ]
]

walk-AllLack :
    (c : ℕ) (base ps : List Text) → AllLack c base → AllLack c ps → AllLack c (walk base ps)
unfolding walk
walk-AllLack c base [] h k = h
walk-AllLack c base (p ∷ ps) h (l, k) =
    walk-AllLack c (enter base p) ps (enter-AllLack c base p h l) k

pub resolve-AllLack :
    (base : List Text) (name : Text) → AllLack b'/' base → AllLack b'/' (resolve base name)
unfolding resolve
resolve-AllLack base name h = elim (Bool-cases (starts_with name (codes "/"))) [
  | inl e ↦ rw (e, resolve) (walk-AllLack b'/' [] (split b'/' name) tt (split-AllLack b'/' name))
  | inr e ↦ rw (e, resolve) (walk-AllLack b'/' base (split b'/' name) h (split-AllLack b'/' name))
]

-- Nothing, or a separator and more.
abbrev Separated : Text → Type 0
Separated [] = Unit
Separated (x ∷ s) = x ≡ b'/'

path_text-Separated : (ps : List Text) → Separated (path_text ps)
unfolding path_text
path_text-Separated [] = tt
path_text-Separated (p ∷ ps) = refl

-- A component is compared whole.
starts_component :
    (c d s r : Text)
    → Lacks b'/' c
    → Lacks b'/' d
    → Separated s
    → starts_with (c ++ s) (d ++ b'/' ∷ r) ≡ true
    → (c ≡ d) × (starts_with s (b'/' ∷ r) ≡ true)
unfolding starts_with
starts_component [] [] s r h k e b = (refl, b)
starts_component (x ∷ c) [] s r (n, h) k e b = absurd (ground arith)
starts_component [] (y ∷ d) [] r h k e b = absurd (ground arith)
starts_component [] (y ∷ d) (z ∷ s) r h (n, k) e b = absurd (ground arith)
starts_component (x ∷ c) (y ∷ d) s r (n, h) (m, k) e b =
    let (same_rest, more) = starts_component c d s r h k e (ground arith) in (ground arith, more)

opened : (dest : List Text) → (r : Text) × (path_text dest ++ codes "/" ≡ b'/' ∷ r)
unfolding path_text
opened [] = ([], refl)
opened (d ∷ dest) = ((d ++ path_text dest) ++ codes "/", refl)

starts-append : (p s t : Text) → starts_with (p ++ s) (p ++ t) ≡ starts_with s t
unfolding starts_with
starts-append [] s t = refl
starts-append (c ∷ p) s t = ground (arith, starts-append p s t)

-- The path lies in the directory, below it.
abbrev pub Below : List Text → List Text → Type 0
Below dest path = (c : Text) × (rest : List Text) × (path ≡ dest ++ c ∷ rest)

is_below-step :
    (c d : Text) (dest path : List Text)
    → Lacks b'/' c
    → Lacks b'/' d
    → is_below (d ∷ dest) (c ∷ path) ≡ true
    → (c ≡ d) × (is_below dest path ≡ true)
unfolding is_below path_text
is_below-step c d dest path h k e =
    let (r, o) = opened dest in
    let joined : (d ++ path_text dest) ++ codes "/" ≡ d ++ b'/' ∷ r =
      append_assoc d (path_text dest) (codes "/") ∙ ap (λ t. d ++ t) o in
    let (one, more) =
      starts_component c d (path_text path) r h k (path_text-Separated path)
        (sym (ap (λ t. starts_with (c ++ path_text path) t) joined) ∙ (unfold starts_with in e)) in
    (one, ap (λ t. starts_with (path_text path) t) o ∙ more)

pub is_below-Below :
    (dest path : List Text)
    → AllLack b'/' dest
    → AllLack b'/' path
    → is_below dest path ≡ true
    → Below dest path
is_below-Below [] [] h k e = absurd (unfold is_below path_text starts_with in ground arith)
is_below-Below [] (c ∷ path) h k e = (c, path, refl)
is_below-Below (d ∷ dest) [] h k e = absurd (unfold is_below path_text starts_with in ground arith)
is_below-Below (d ∷ dest) (c ∷ path) (l, h) (m, k) e =
    let (one, more) = is_below-step c d dest path m l e in
    let (x, rest, split_there) = is_below-Below dest path h k more in
    (x, rest, ap (λ u. u ∷ path) one ∙ ap (λ ps. d ∷ ps) split_there)

path_text-append : (xs ys : List Text) → path_text (xs ++ ys) ≡ path_text xs ++ path_text ys
unfolding path_text
path_text-append [] ys = refl
path_text-append (x ∷ xs) ys =
    ap (λ t. b'/' ∷ t)
      (ap (λ t. x ++ t) (path_text-append xs ys)
        ∙ sym (append_assoc x (path_text xs) (path_text ys)))

pub Below-is_below : (dest path : List Text) → Below dest path → is_below dest path ≡ true
unfolding is_below
Below-is_below dest path (c, rest, e) =
    rw (e, path_text-append dest (c ∷ rest))
      (starts-append (path_text dest) (path_text (c ∷ rest)) (codes "/")
        ∙ (unfold path_text starts_with in refl))

same_component :
    (c d s r : Text)
    → Lacks b'/' c
    → Lacks b'/' d
    → Separated s
    → Separated r
    → c ++ s ≡ d ++ r
    → (c ≡ d) × (s ≡ r)
same_component [] [] s r h k a b e = (refl, e)
same_component (x ∷ c) [] s [] h k a b e = absurd (ground arith)
same_component (x ∷ c) [] s (z ∷ r) (n, h) k a b e = absurd (ground arith)
same_component [] (y ∷ d) [] r h k a b e = absurd (ground arith)
same_component [] (y ∷ d) (z ∷ s) r h (n, k) a b e = absurd (ground arith)
same_component (x ∷ c) (y ∷ d) s r (n, h) (m, k) a b e =
    let (one, more) = same_component c d s r h k a b (ground arith) in (ground arith, more)

path_text_injective :
    (xs ys : List Text) → AllLack b'/' xs → AllLack b'/' ys → path_text xs ≡ path_text ys → xs ≡ ys
unfolding path_text
path_text_injective [] [] h k e = refl
path_text_injective [] (y ∷ ys) h k e = absurd (ground arith)
path_text_injective (x ∷ xs) [] h k e = absurd (ground arith)
path_text_injective (x ∷ xs) (y ∷ ys) (l, h) (m, k) e =
    let (one, more) =
      same_component x y (path_text xs) (path_text ys) l m (path_text-Separated xs)
        (path_text-Separated ys) (ground arith) in
    ap (λ u. u ∷ xs) one ∙ ap (λ ps. y ∷ ps) (path_text_injective xs ys h k more)

pub target-Below :
    (dest path : List Text)
    → AllLack b'/' dest
    → AllLack b'/' path
    → (same (path_text path) (path_text dest) || is_below dest path ≡ true)
      ↔ ((path ≡ dest) ⊎ Below dest path)
target-Below dest path h k = (λ e. sound (Bool-cases (is_below dest path)) e, complete)
  where
    sound :
        (is_below dest path ≡ true) ⊎ (is_below dest path ≡ false)
        → same (path_text path) (path_text dest) || is_below dest path ≡ true
        → (path ≡ dest) ⊎ Below dest path
    sound (inl b) e = inr (is_below-Below dest path h k b)
    sound (inr b) e = inl (
        path_text_injective path dest k h
          ((same_iff (path_text path) (path_text dest)).0 (ground arith)))

    complete :
        (path ≡ dest) ⊎ Below dest path
        → same (path_text path) (path_text dest) || is_below dest path ≡ true
    complete (inl e) =
        ground (arith, (same_iff (path_text path) (path_text dest)).1 (ap path_text e))
    complete (inr b) = ground (arith, Below-is_below dest path b)
