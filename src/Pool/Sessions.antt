-- ===== src/Pool/Sessions.antt =====
-- src/py-inference/src/inference/engine_pool.py: `_engine_sessions`, a Python dict as an
-- association list in the order of insertion.
use openmodel.Base.{
  ℕ, suc, ◌<◌, ◌≡◌, refl, true, false, List, [], ◌∷◌, Option, none, some, String, zero, length,
  if◌then◌else◌, ltb, leb, arith, Bool-cases, inl, inr,
}
use text.Mathlib.Text.{◌==◌ as str_eq}
use text.Mathlib.TextEquality.{eq_iff}
use openmodel.Pool.State.{Pin}

-- `d.get(key)`.
unfoldable pub lookup : String → List (String × Pin) → Option Pin
lookup key [] = none
lookup key (entry ∷ rest) = if str_eq (entry.0) key then some (entry.1) else lookup key rest

-- `d[key] = pin`: an old key keeps its place.
unfoldable pub insert : String → Pin → List (String × Pin) → List (String × Pin)
insert key pin [] = (key, pin) ∷ []
insert key pin (entry ∷ rest) = elim (str_eq (entry.0) key) [
  | true ↦ (entry.0, pin) ∷ rest
  | false ↦ entry ∷ insert key pin rest
]

-- `for k in [k for k, v in d.items() if v[1] <= now][:n]: del d[k]`.
unfoldable pub drop_expired : ℕ → ℕ → List (String × Pin) → List (String × Pin)
drop_expired now zero m = m
drop_expired now (suc n) [] = []
drop_expired now (suc n) ((k, v) ∷ m) = elim (leb v.expiry now) [
  | true ↦ drop_expired now n m
  | false ↦ (k, v) ∷ drop_expired now (suc n) m
]

abbrev pub max_sessions : ℕ
max_sessions = 4096

-- What follows the insertion of a pin.
unfoldable pub bound_sessions : ℕ → List (String × Pin) → List (String × Pin)
bound_sessions now m = if ltb max_sessions (length m) then drop_expired now 512 m else m

pub lookup-insert :
    (key other : String) (pin : Pin) (table : List (String × Pin))
    → lookup other (insert key pin table)
      ≡ (if str_eq key other then some pin else lookup other table)
unfolding insert lookup
lookup-insert key other pin [] = refl
lookup-insert key other pin (entry ∷ rest) =
    let kept = lookup-insert key other pin rest in
    ground (arith, kept, eq_iff (entry.0) key, eq_iff (entry.0) other, eq_iff key other)

-- A pin that has not run out is never dropped, and no pin is made up or changed.
drop_expired-lookup :
    (now n : ℕ) (k : String) (v : Pin) (m : List (String × Pin))
    → lookup k m ≡ some v
    → now < v.expiry
    → lookup k (drop_expired now n m) ≡ some v
unfolding lookup drop_expired
drop_expired-lookup now zero k v m h live = h
drop_expired-lookup now (suc n) k v [] h live = h
drop_expired-lookup now (suc n) k v ((j, w) ∷ m) h live =
    ground (arith, drop_expired-lookup now n k v m, drop_expired-lookup now (suc n) k v m)

pub bound_sessions-lookup :
    (now : ℕ) (k : String) (v : Pin) (m : List (String × Pin))
    → lookup k m ≡ some v
    → now < v.expiry
    → lookup k (bound_sessions now m) ≡ some v
unfolding bound_sessions
bound_sessions-lookup now k v m h live = elim (Bool-cases (ltb max_sessions (length m))) [
  | inl full ↦ rw full (drop_expired-lookup now 512 k v m h live)
  | inr room ↦ rw room h
]
