-- ===== src/Engine/Progress.antt =====
-- src/py-inference/src/inference/engine.py: the coroutines that wait for the transition lock.
use openmodel.Base.{
  bit, ◌≡◌, refl, ap, ◌∙◌, ◌⊎◌, inl, inr, ℕ, suc, zero, ◌≤◌, List, [], ◌∷◌, Option, none, some,
  arith, total, replicate, Bool, true, false, is_some, get_elem?, ◌&&◌, Option-cases, Bool-cases,
  ◌≢◌, sym, le-total,
}
use openmodel.Engine.State.{VllmEngine}
use openmodel.Engine.Sections.{Destroy}
use openmodel.Engine.Moves.{Task, Outcome, Unloader, woken, created, output, destroying}
use openmodel.Engine.Tasks.{advance}
use openmodel.Engine.System.{
  System, Reach, anything, init, exec_task, settle, needs_lock, schedule, runs,
}
use openmodel.Engine.Leaving.{section_left, Freed, section_frees}
use openmodel.Engine.Lock.{holding, lock_exclusive}

abbrev pub is_over : Task → Bool
is_over (Task.request_done reply) = true
is_over Task.finished = true
is_over Task.exited = true
is_over _ = false

-- What the await of the task may give.
abbrev answer_to : Task → Outcome
answer_to (Task.reload_create n k) = created 0 []
answer_to Task.start_create = created 0 []
answer_to (Task.request_next stream r seen) = output
answer_to _ = woken

goes_on :
    (t : Task) (e : VllmEngine) → is_over t ≡ false → is_some (advance (answer_to t) t e) ≡ true
unfolding advance
goes_on (Task.pause_draining k) e h = ground arith
goes_on (Task.switch_draining n) e h = ground arith
goes_on _ e h = ground arith

-- A task that may take the lock, or needs none, runs.
runs_now :
    (i : ℕ) (c : Task) (s : System)
    → s.exited ≡ false
    → is_over c ≡ false
    → (needs_lock c && is_some s.lock) ≡ false
    → (t : System) × (exec_task i (answer_to c) c s ≡ some t)
runs_now i c s up open_ free = elim (Option-cases (advance (answer_to c) c s.engine)) [
  | inl e ↦ absurd (ground (arith, goes_on c s.engine open_))
  | inr (m, e) ↦ (settle i c m s, unfold exec_task in ground arith)
]

-- The index of an entry that weighs something.
weighty :
    (w : Task → ℕ) (xs : List Task)
    → 1 ≤ total w xs
    → (j : ℕ) × (x : Task) × (get_elem? xs j ≡ some x) × (1 ≤ w x)
weighty w [] h = absurd (omega (arith, h))
weighty w (x ∷ xs) h = elim (heavy (w x)) [
  | inl e ↦ (0, x, refl, e)
  | inr e ↦ let (j, y, at, k) = weighty w xs (omega (arith, h, e)) in (suc j, y, at, k)
]
  where
    heavy : (n : ℕ) → (1 ≤ n) ⊎ (n ≡ 0)
    heavy zero = inr refl
    heavy (suc n) = inl (omega arith)

holder-runs : (t : Task) → 1 ≤ holding t → (is_over t ≡ false) × (needs_lock t ≡ false)
unfolding needs_lock
holder-runs (Task.destroying d u) h = (refl, refl)
holder-runs _ h = absurd (ground arith)

held_lock :
    (c : Task) (s : System) → (needs_lock c && is_some s.lock) ≡ true → is_some s.lock ≡ true
held_lock c s h = ground arith

some-eq : {x y : Task} → some x ≡ some y → x ≡ y
some-eq e = cc

-- Before the process exits: a coroutine that holds the transition lock while it destroys the engine gives
-- the lock back by its own wake-ups alone, one for each request that is left to abort and at most two
-- more, or one if it only waits for the subprocesses.
pub lock_freed :
    (i : ℕ) {d : Destroy} {u : Unloader} (s : System)
    → s.exited ≡ false
    → get_elem? s.tasks i ≡ some (destroying d u)
    → (k : ℕ) × (k ≤ section_left d) × ((schedule (replicate k (runs i woken)) s).lock ≡ none)
lock_freed i {d} {u} s up at =
    let (k, h, freed) = section_frees (section_left d) i d u s (omega arith) up at in
    (k, h, freed.lock_free)

-- What is left of the section that a task is in.
abbrev pub wakes_left : Task → ℕ
wakes_left (Task.destroying d u) = section_left d
wakes_left _ = 0

-- A task that holds the lock is in `_destroy_engine`.
holder_leaves :
    (j : ℕ) (d : Task) (s : System)
    → s.exited ≡ false
    → get_elem? s.tasks j ≡ some d
    → 1 ≤ holding d
    → (k : ℕ) × (k ≤ wakes_left d) × Freed j s (schedule (replicate k (runs j woken)) s)
holder_leaves j (Task.destroying d u) s up at h =
    section_frees (section_left d) j d u s (omega arith) up at
holder_leaves j _ s up at h = absurd (ground arith)

not_holder : (c d : Task) → 1 ≤ holding d → needs_lock c ≡ true → c ≢ d
not_holder c d h n e = ground (arith, holder-runs d h)

-- In every state that can be reached before the process exits: a coroutine that is not over can run on,
-- at once, or, where it waits for the transition lock, after wake-ups of the one coroutine that holds the
-- lock, no more than are left in `_destroy_engine`; it still stands where it stood.
pub never_deadlocked :
    (device_ids : Option (List ℕ)) {s : System} (i : ℕ) {c : Task}
    → Reach anything (init device_ids) s
    → s.exited ≡ false
    → get_elem? s.tasks i ≡ some c
    → is_over c ≡ false
    → (j k : ℕ) × (k ≤ total wakes_left s.tasks)
      × ((needs_lock c && is_some s.lock) ≡ false → k ≡ 0)
      × (let w = schedule (replicate k (runs j woken)) s in
          (get_elem? w.tasks i ≡ some c)
          × ((o : Outcome) × (t : System) × (exec_task i o c w ≡ some t)))
unfolding schedule
never_deadlocked device_ids {s} i {c} r up at open_ =
    elim (Bool-cases (needs_lock c && is_some s.lock)) [
      | inr free ↦
          let (t, e) = runs_now i c s up open_ free in
          (i, 0, omega arith, λ f. refl, (at, (answer_to c, t, e)))
      | inl held ↦
          let (j, d, atj, h) =
            weighty holding s.tasks
              (omega (arith, lock_exclusive device_ids r, ap bit (held_lock c s held))) in
          let (k, few, freed) = holder_leaves j d s up atj h in
          let w = schedule (replicate k (runs j woken)) s in
          let still = freed.others i c (apart j d atj h held) at in
          let (t, e) = runs_now i c w freed.up open_ (ground (arith, freed.lock_free)) in
          (
            j,
            k,
            omega (arith, few, le-total wakes_left s.tasks j atj),
            λ f. absurd (ground arith),
            (still, (answer_to c, t, e)),
          )
    ]
  where
    apart :
        (j : ℕ) (d : Task)
        → get_elem? s.tasks j ≡ some d
        → 1 ≤ holding d
        → (needs_lock c && is_some s.lock) ≡ true
        → j ≢ i
    apart j d atj h held e =
        not_holder c d h (ground arith) (some-eq (sym at ∙ ap (get_elem? s.tasks) (sym e) ∙ atj))
