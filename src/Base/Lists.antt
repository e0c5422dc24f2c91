-- ===== src/Base/Lists.antt =====
-- Lists measured and indexed by native numbers, under the library's names.
use Prim.Native.Nat.{ℕ, zero, suc, ◌+◌, ◌≤◌}
use mathlib.Core.Path.{◌≡◌, refl, ap}
use mathlib.Core.Bool.{Bool, true, false, ◌||◌, ◌&&◌}
use mathlib.Core.List.{List, [], ◌∷◌, ◌++◌}
use mathlib.Core.Option.{Option, none, some}
use native.Mathlib.Omega.{arith}
use mathlib.Core.Logic.{◌≢◌, ◌⊎◌, inl, inr}
use openmodel.Base.Tests.{◌==◌, if◌then◌else◌, Bool-cases}

module _ {ℓ} {A : Type ℓ} where
  abbrev pub length : List A → ℕ
  length [] = 0
  length (x ∷ xs) = suc (length xs)

  abbrev pub get_elem? : List A → ℕ → Option A
  get_elem? [] i = none
  get_elem? (x ∷ xs) zero = some x
  get_elem? (x ∷ xs) (suc i) = get_elem? xs i

  -- A write out of bounds changes nothing.
  abbrev pub set : List A → ℕ → A → List A
  set [] i v = []
  set (x ∷ xs) zero v = v ∷ xs
  set (x ∷ xs) (suc i) v = x ∷ set xs i v

  abbrev pub replicate : ℕ → A → List A
  replicate zero a = []
  replicate (suc n) a = a ∷ replicate n a

  -- Python's `any` and `all` over a test.
  abbrev pub any : (A → Bool) → List A → Bool
  any p [] = false
  any p (x ∷ xs) = p x || any p xs

  abbrev pub all : (A → Bool) → List A → Bool
  all p [] = true
  all p (x ∷ xs) = p x && all p xs

  -- `[x for x in xs if p(x)]`.
  abbrev pub filter : (A → Bool) → List A → List A
  filter p [] = []
  filter p (x ∷ xs) = let rest = filter p xs in if p x then x ∷ rest else rest

  -- The sum of a weight over a list.
  abbrev pub total : (A → ℕ) → List A → ℕ
  total w [] = 0
  total w (x ∷ xs) = w x + total w xs

-- `xs` without the entries equal to `a`: `set.discard` on the list of a set's elements.
abbrev pub discard : ℕ → List ℕ → List ℕ
discard a [] = []
discard a (x ∷ xs) = let rest = discard a xs in if x == a then rest else x ∷ rest

module _ {ℓ} {A : Type ℓ} where
  pub total-append : (w : A → ℕ) (xs ys : List A) → total w (xs ++ ys) ≡ total w xs + total w ys
  total-append w [] ys = omega arith
  total-append w (x ∷ xs) ys = omega (arith, total-append w xs ys)

  pub total-set :
      (w : A → ℕ) (xs : List A) (i : ℕ) (v : A) {x : A}
      → get_elem? xs i ≡ some x
      → total w (set xs i v) + w x ≡ total w xs + w v
  total-set w [] i v h = ground arith
  total-set w (y ∷ ys) zero v h = ground arith
  total-set w (y ∷ ys) (suc i) v h = omega (arith, total-set w ys i v h)

  -- An entry's weight is part of the sum.
  pub le-total :
      (w : A → ℕ) (xs : List A) (i : ℕ) {x : A} → get_elem? xs i ≡ some x → w x ≤ total w xs
  le-total w [] i h = ground arith
  le-total w (y ∷ ys) zero h = ground arith
  le-total w (y ∷ ys) (suc i) h = omega (arith, le-total w ys i h)

  pub total_mono : (v w : A → ℕ) → ((x : A) → v x ≤ w x) → (xs : List A) → total v xs ≤ total w xs
  total_mono v w h [] = omega arith
  total_mono v w h (x ∷ xs) = omega (arith, h x, total_mono v w h xs)

  pub total-add : (v w : A → ℕ) (xs : List A) → total (λ x. v x + w x) xs ≡ total v xs + total w xs
  total-add v w [] = omega arith
  total-add v w (x ∷ xs) = omega (arith, total-add v w xs)

module _ {ℓ κ} {A : Type ℓ} (P : A → Type κ) where
  -- Every element of the list has the property.
  abbrev pub All : List A → Type κ
  All [] = Unit
  All (x ∷ xs) = P x × All xs

  pub All-append : (xs ys : List A) → All xs → All ys → All (xs ++ ys)
  All-append [] ys h k = k
  All-append (x ∷ xs) ys (p, h) k = (p, All-append xs ys h k)

-- The indices from `i` on, `n` of them.
abbrev pub range_from : ℕ → ℕ → List ℕ
range_from i zero = []
range_from i (suc n) = i ∷ range_from (suc i) n

pub length-range_from : (i n : ℕ) → length (range_from i n) ≡ n
length-range_from i zero = refl
length-range_from i (suc n) = ap suc (length-range_from (suc i) n)

-- `a in xs`.
abbrev pub member : ℕ → List ℕ → Bool
member a [] = false
member a (x ∷ xs) = x == a || member a xs

module _ {ℓ} {A : Type ℓ} where
  -- What a write leaves at an index: its value, or what was there.
  pub get_elem?-set :
      (xs : List A) (i : ℕ) (v : A) (j : ℕ) {x : A}
      → get_elem? (set xs i v) j ≡ some x
      → ((j ≡ i) × (x ≡ v)) ⊎ ((j ≢ i) × (get_elem? xs j ≡ some x))
  get_elem?-set [] i v j h = absurd (ground arith)
  get_elem?-set (y ∷ ys) zero v zero h = inl (refl, ground arith)
  get_elem?-set (y ∷ ys) zero v (suc j) h = inr (omega arith, h)
  get_elem?-set (y ∷ ys) (suc i) v zero h = inr (omega arith, h)
  get_elem?-set (y ∷ ys) (suc i) v (suc j) h = elim (get_elem?-set ys i v j h) [
    | inl e ↦ inl (ap suc e.0, e.1)
    | inr e ↦ inr (λ q. e.0 (omega (arith, q)), e.1)
  ]

module _ {ℓ κ} {A : Type ℓ} {P Q : A → Type κ} where
  pub All-map : (xs : List A) → ((x : A) → P x → Q x) → All P xs → All Q xs
  All-map [] f h = h
  All-map (x ∷ xs) f h = (f x h.0, All-map xs f h.1)

  -- What a filter leaves, with what its test says of it.
  pub All-filter :
      (p : A → Bool) (xs : List A)
      → ((x : A) → p x ≡ true → P x → Q x)
      → All P xs
      → All Q (filter p xs)
  All-filter p [] f h = h
  All-filter p (x ∷ xs) f h = elim (Bool-cases (p x)) [
    | inl e ↦ rw e (f x e h.0, All-filter p xs f h.1)
    | inr e ↦ rw e (All-filter p xs f h.1)
  ]

module _ {ℓ κ} {A : Type ℓ} {P Q R : A → Type κ} where
  pub All-map2 : (xs : List A) → ((x : A) → P x → Q x → R x) → All P xs → All Q xs → All R xs
  All-map2 [] f h k = h
  All-map2 (x ∷ xs) f h k = (f x h.0 k.0, All-map2 xs f h.1 k.1)

module _ {ℓ} {A : Type ℓ} where
  pub all-All : (p : A → Bool) (xs : List A) → all p xs ≡ true → All (λ x. p x ≡ true) xs
  all-All p [] h = ground arith
  all-All p (x ∷ xs) h = (ground arith, all-All p xs (ground arith))

  pub all-get_elem? :
      (p : A → Bool) (xs : List A) (i : ℕ) {x : A}
      → all p xs ≡ true
      → get_elem? xs i ≡ some x
      → p x ≡ true
  all-get_elem? p [] i h at = ground arith
  all-get_elem? p (y ∷ ys) zero h at = ground arith
  all-get_elem? p (y ∷ ys) (suc i) h at = all-get_elem? p ys i (ground arith) at

  -- Two tests that agree on the elements of a list filter it alike.
  pub filter_ext :
      (p q : A → Bool) (xs : List A) → All (λ x. p x ≡ q x) xs → filter p xs ≡ filter q xs
  filter_ext p q [] h = refl
  filter_ext p q (x ∷ xs) h = rw (h.0, filter_ext p q xs h.1)
