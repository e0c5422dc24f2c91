-- ===== src/Mock/Laws.antt =====
-- src/py-inference/src/inference/engine.py: what MockEngine keeps of the contract of an engine.
use openmodel.Base.{
  ◌≡◌, ◌⊎◌, ◌≤◌, ◌+◌, refl, ℕ, Bool, true, List, [], ◌∷◌, some, inl, inr, String, arith, total,
  total-append, total-set, le-total, get_elem?, Option-cases, all, ◌==◌,
}
use text.Mathlib.TextEquality.{eq_iff}
use openmodel.Engine.State.{running, paused}
use openmodel.Mock.Tasks.{
  MockEngine, MockTask, MockSystem, MockRound, mock_calls, mock_wakes, mock_advance, mock_round,
  mock_schedule, mock_switch, mock_done, new_mock, mock_run,
}

-- 1 for a request that sleeps.
abbrev pub mock_in_flight : MockTask → ℕ
mock_in_flight (MockTask.mock_waiting stream n) = 1
mock_in_flight _ = 0

mock_advance-counts :
    (t : MockTask) (e : MockEngine) {e' : MockEngine} {t' : MockTask}
    → mock_in_flight t ≤ e.active_requests
    → mock_advance t e ≡ some (e', t')
    → e'.active_requests + mock_in_flight t ≡ e.active_requests + mock_in_flight t'
unfolding mock_advance
mock_advance-counts (MockTask.mock_start path) e b h = ground arith
mock_advance-counts _ e b h = ground arith

-- What is called is a method, not the middle of one.
abbrev pub fresh_round : MockRound → Bool
fresh_round (mock_calls t) = mock_in_flight t == 0
fresh_round (mock_wakes i) = true

abbrev IsMockCounted : MockSystem → Type 0
IsMockCounted s = s.engine.active_requests ≡ total mock_in_flight s.tasks

mock_round-counts :
    (r : MockRound) (s : MockSystem)
    → fresh_round r ≡ true
    → IsMockCounted s
    → IsMockCounted (mock_round r s)
unfolding mock_round
mock_round-counts (mock_calls t) s ok v =
    ground (arith, total-append mock_in_flight s.tasks (t ∷ []))
mock_round-counts (mock_wakes i) s ok v = elim (Option-cases (get_elem? s.tasks i)) [
  | inl e ↦ rw (e, mock_round) v
  | inr (t, e) ↦ elim (Option-cases (mock_advance t s.engine)) [
    | inl x ↦ rw (e, mock_round, mock_run, x) v
    | inr ((e', t'), x) ↦
        rw (e, mock_round, mock_run, x)
          (omega (
            arith,
            total-set mock_in_flight s.tasks i t' e,
            mock_advance-counts t s.engine (omega (arith, le-total mock_in_flight s.tasks i e)) x,
          ))
  ]
]

mock_schedule-counts :
    (rs : List MockRound) (s : MockSystem)
    → all fresh_round rs ≡ true
    → IsMockCounted s
    → IsMockCounted (mock_schedule rs s)
unfolding mock_schedule
mock_schedule-counts [] s ok v = v
mock_schedule-counts (r ∷ rs) s ok v =
    mock_schedule-counts rs (mock_round r s) (ground arith) (mock_round-counts r s (ground arith) v)

-- For every series of calls and wake-ups, in any order, the mock engine's counter of active
-- requests equals the number of its requests that sleep.
mock_requests_exact :
    (g : ℕ) (rs : List MockRound)
    → all fresh_round rs ≡ true
    → let s = mock_schedule rs (record { engine = new_mock g; tasks = [] }) in
      s.engine.active_requests ≡ total mock_in_flight s.tasks
unfolding new_mock
mock_requests_exact g rs ok = mock_schedule-counts rs _ ok refl

-- `switch_model` of a mock engine that runs or is paused, with nothing else in the loop, has ended
-- after three turns of the loop, and the engine runs the new model.
mock_switch_completes :
    (e : MockEngine) (new : String)
    → (e.state ≡ running) ⊎ (e.state ≡ paused)
    → let s =
        mock_schedule
          (mock_wakes 0 ∷ mock_wakes 0 ∷ mock_wakes 0 ∷ [])
          (record { engine = e; tasks = mock_switch new ∷ [] }) in
      (s.engine.state ≡ running) × (s.engine.model ≡ new) × (s.tasks ≡ mock_done ∷ [])
unfolding mock_schedule mock_round mock_run mock_advance
mock_switch_completes e new (inl st) = ground (arith, eq_iff e.model new)
mock_switch_completes e new (inr st) = ground (arith, eq_iff e.model new)
