-- ===== src/Engine/Leaving.antt =====
-- src/py-inference/src/inference/engine.py: how a coroutine leaves `_destroy_engine` by its own
-- wake-ups.
use openmodel.Base.{
  ◌≡◌, refl, ap, ◌∙◌, ◌⊎◌, inl, inr, ℕ, suc, zero, ◌≤◌, List, [], ◌∷◌, ◌++◌, none, some, arith,
  length, replicate, set, false, get_elem?, ◌≢◌, sym, subst,
}
use openmodel.Engine.State.{VllmEngine}
use openmodel.Engine.Sections.{Destroy, aborting, reaping, destroy_step}
use openmodel.Engine.Moves.{
  Task, Move, Unloader, woken, destroying, destroyed, destroy_on, leave, goto,
}
use openmodel.Engine.Tasks.{advance}
use openmodel.Engine.System.{
  System, exec_task, exec, settle, relock, needs_lock, holds_lock, has_exited, schedule, round,
  runs,
}

-- The wake-ups that `_destroy_engine` has left, at most.
abbrev pub section_left : Destroy → ℕ
section_left (aborting rs) = suc (suc (length rs))
section_left (reaping ps) = 1

-- The task has left the section.
abbrev Leaves : Task → Type 0
Leaves t = (holds_lock t ≡ false) × (has_exited t ≡ false)

destroyed-Leaves : (u : Unloader) (e : VllmEngine) → Leaves (destroyed u e).task
unfolding holds_lock has_exited destroyed goto leave
destroyed-Leaves (Unloader.by_pause k) e = ground arith
destroyed-Leaves (Unloader.by_reload k) e = ground arith
destroyed-Leaves _ e = (refl, refl)

abbrev Onward : Destroy → Unloader → VllmEngine → Type 0
Onward d u e =
    ((d' : Destroy) × ((destroy_on d u e).task ≡ destroying d' u)
      × (suc (section_left d') ≤ section_left d))
    ⊎ Leaves (destroy_on d u e).task

reap_on :
    (ps : List ℕ) (u : Unloader) (e : VllmEngine) → e.child_pids ≡ ps → Onward (aborting []) u e
unfolding destroy_on destroy_step goto
reap_on [] u e h = inr (rw (destroy_on, destroy_step, h) (destroyed-Leaves u _))
reap_on (p ∷ ps) u e h = inl (reaping (p ∷ ps), rw (destroy_on, destroy_step, h) refl, omega arith)

destroy_on-cases : (d : Destroy) (u : Unloader) (e : VllmEngine) → Onward d u e
unfolding destroy_on destroy_step goto
destroy_on-cases (aborting (r ∷ rs)) u e = inl (aborting rs, refl, omega arith)
destroy_on-cases (aborting []) u e = reap_on e.child_pids u e refl
destroy_on-cases (reaping ps) u e = inr (destroyed-Leaves u _)

pub get_elem?-settled :
    (xs : List Task) (i : ℕ) (v : Task) (ys : List Task) {x : Task}
    → get_elem? xs i ≡ some x
    → get_elem? (set xs i v ++ ys) i ≡ some v
get_elem?-settled [] i v ys h = absurd (ground arith)
get_elem?-settled (x ∷ xs) zero v ys h = refl
get_elem?-settled (x ∷ xs) (suc i) v ys h = get_elem?-settled xs i v ys h

section_left-pos : (d : Destroy) → 1 ≤ section_left d
section_left-pos (aborting rs) = omega arith
section_left-pos (reaping ps) = omega arith

pub woken_round :
    (i : ℕ) (d : Destroy) (u : Unloader) (s : System)
    → s.exited ≡ false
    → get_elem? s.tasks i ≡ some (destroying d u)
    → round (runs i woken) s ≡ settle i (destroying d u) (destroy_on d u s.engine) s
unfolding round exec exec_task advance needs_lock
woken_round i d u s up at = ground arith

-- Task `i` has left its section by its own wake-ups: the lock is free, the process lives, and every other
-- task stands where it stood.
pub record Freed (i : ℕ) (s t : System) : Type 0 where
  pub lock_free : t.lock ≡ none
  pub up : t.exited ≡ false
  pub others :
      (j : ℕ) (x : Task) → i ≢ j → get_elem? s.tasks j ≡ some x → get_elem? t.tasks j ≡ some x

get_elem?-left :
    (xs ys : List Task) (j : ℕ) {x : Task}
    → get_elem? xs j ≡ some x
    → get_elem? (xs ++ ys) j ≡ some x
get_elem?-left [] ys j h = absurd (ground arith)
get_elem?-left (x ∷ xs) ys zero h = h
get_elem?-left (x ∷ xs) ys (suc j) h = get_elem?-left xs ys j h

get_elem?-elsewhere :
    (xs : List Task) (i : ℕ) (v : Task) (ys : List Task) (j : ℕ) {x : Task}
    → i ≢ j
    → get_elem? xs j ≡ some x
    → get_elem? (set xs i v ++ ys) j ≡ some x
get_elem?-elsewhere [] i v ys j ne h = absurd (ground arith)
get_elem?-elsewhere (x ∷ xs) zero v ys zero ne h = absurd (ne refl)
get_elem?-elsewhere (x ∷ xs) zero v ys (suc j) ne h = get_elem?-left xs ys j h
get_elem?-elsewhere (x ∷ xs) (suc i) v ys zero ne h = h
get_elem?-elsewhere (x ∷ xs) (suc i) v ys (suc j) ne h =
    get_elem?-elsewhere xs i v ys j (λ e. ne (ap suc e)) h

settle-others :
    (i : ℕ) (c : Task) (m : Move) (s : System) (j : ℕ) (x : Task)
    → i ≢ j
    → get_elem? s.tasks j ≡ some x
    → get_elem? (settle i c m s).tasks j ≡ some x
unfolding settle
settle-others i c m s j x ne at = get_elem?-elsewhere s.tasks i m.task m.spawned j ne at

pub section_frees :
    (n i : ℕ) (d : Destroy) (u : Unloader) (s : System)
    → section_left d ≤ n
    → s.exited ≡ false
    → get_elem? s.tasks i ≡ some (destroying d u)
    → (k : ℕ) × (k ≤ n) × Freed i s (schedule (replicate k (runs i woken)) s)
unfolding schedule
section_frees zero i d u s few up at = absurd (omega (arith, few, section_left-pos d))
section_frees (suc n) i d u s few up at = elim (destroy_on-cases d u s.engine) [
  | inr (e, f) ↦ (
    1,
    omega arith,
    subst (Freed i s) (sym step) (record {
      lock_free = unfold settle relock holds_lock in rw e refl;
      up = unfold settle in f;
      others = λ j x. settle-others i (destroying d u) (destroy_on d u s.engine) s j x;
    }),
  )
  | inl (d', e, less) ↦
      let (k, h, freed) =
        section_frees n i d' u after (omega (arith, few, less))
          (unfold settle has_exited in rw e refl)
          (unfold settle in get_elem?-settled s.tasks i _ _ at ∙ ap some e) in
      (
        suc k,
        omega (arith, h),
        subst (λ t. Freed i s (schedule (replicate k (runs i woken)) t)) (sym step)
            (record {
              lock_free = freed.lock_free;
              up = freed.up;
              others = λ j x ne there.
                  freed.others j x ne
                    (settle-others i (destroying d u) (destroy_on d u s.engine) s j x ne there);
            }),
      )
]
  where
    after : System
    after = settle i (destroying d u) (destroy_on d u s.engine) s

    step : round (runs i woken) s ≡ after
    step = woken_round i d u s up at
