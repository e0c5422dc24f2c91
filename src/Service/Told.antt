-- ===== src/Service/Told.antt =====
-- What the calls of the pool tell an engine.
use openmodel.Base.{
  ℕ, ◌<◌, ◌∙◌, Bool-cases, ◌≡◌, refl, ◌⊎◌, inl, inr, arith, Bool, true, false, ◌==◌, if◌then◌else◌,
  List, [], ◌∷◌, ◌++◌, map, Option, none, some, String, range_from, Option-cases, zero, suc, ◌+◌,
  ◌≤◌,
}
use openmodel.Engine.State.{YieldUrgency}
use openmodel.Pool.State.{Mode, multi_instance, tensor_parallel}
use openmodel.Pool.Fanout.{EngineCall, pauses, resumes, switches}

-- Whether a call tells engine `i` to pause (true) or to resume (false), and a model switch, which
-- ends in a resume, counts as one in a pool of several engines.
abbrev pub says : Mode → ℕ → EngineCall → Option Bool
says m i (pauses u j) = if j == i then some true else none
says m i (resumes j) = if j == i then some false else none
says multi_instance i (switches path j) = if j == i then some false else none
says m i _ = none

-- What engine `i` was last told.
abbrev pub told : Mode → ℕ → List EngineCall → Option Bool
told m i [] = none
told m i (c ∷ cs) = elim (told m i cs) [ none ↦ says m i c | some b ↦ some b ]

told-append :
    (m : Mode) (i : ℕ) (xs ys : List EngineCall)
    → told m i (xs ++ ys) ≡ elim (told m i ys) [ none ↦ told m i xs | some b ↦ some b ]
told-append m i [] ys = elim (Option-cases (told m i ys)) [
  | inl e ↦ rw e refl
  | inr (b, e) ↦ rw e refl
]
told-append m i (x ∷ xs) ys = elim (Option-cases (told m i ys)) [
  | inl e ↦ rw (told-append m i xs ys, e) refl
  | inr (b, e) ↦ rw (told-append m i xs ys, e) refl
]

only_pauses :
    (m : Mode) (i : ℕ) (u : YieldUrgency) (js : List ℕ)
    → (told m i (map (pauses u) js) ≡ none) ⊎ (told m i (map (pauses u) js) ≡ some true)
only_pauses m i u [] = inl refl
only_pauses m i u (j ∷ js) = elim (only_pauses m i u js) [
  | inl e ↦ elim (Bool-cases (j == i)) [
    | inl h ↦ inr (rw (e, h) refl)
    | inr h ↦ inl (rw (e, h) refl)
  ]
  | inr e ↦ inr (rw e refl)
]

pub told_pauses :
    (m : Mode) (i : ℕ) (u : YieldUrgency) (k n : ℕ)
    → k ≤ i
    → i < k + n
    → told m i (map (pauses u) (range_from k n)) ≡ some true
told_pauses m i u k zero lo hi = absurd (omega (arith, lo, hi))
told_pauses m i u k (suc n) lo hi = elim (only_pauses m i u (range_from (suc k) n)) [
  | inr e ↦ rw e refl
  | inl e ↦ elim (Bool-cases (k == i)) [
    | inl h ↦ rw (e, h) refl
    | inr h ↦ rw (told_pauses m i u (suc k) n (ground arith) (omega (arith, hi))) refl
  ]
]

pub told-switches :
    (i : ℕ) (path : String) (js : List ℕ) → told tensor_parallel i (map (switches path) js) ≡ none
told-switches i path [] = refl
told-switches i path (j ∷ js) = rw (told-switches i path js) refl

pub append_none :
    (m : Mode) (i : ℕ) (xs ys : List EngineCall)
    → told m i ys ≡ none
    → told m i (xs ++ ys) ≡ told m i xs
append_none m i xs ys e = told-append m i xs ys ∙ rw e refl

pub append_some :
    (m : Mode) (i : ℕ) (xs ys : List EngineCall) {b : Bool}
    → told m i ys ≡ some b
    → told m i (xs ++ ys) ≡ some b
append_some m i xs ys e = rw (told-append m i xs ys, e) refl
