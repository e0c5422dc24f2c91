-- ===== src/Engine/Accounting.antt =====
-- `_active_requests` of src/py-inference/src/inference/engine.py against the requests that are
-- really under way.
use openmodel.Base.{◌≡◌, ℕ, ◌+◌, ◌≤◌, Option, List, arith, total, le-total, some, get_elem?, refl}
use openmodel.Engine.State.{VllmEngine}
use openmodel.Engine.Moves.{Task, Outcome, Move}
use openmodel.Engine.Tasks.{advance}
use openmodel.Engine.System.{
  System, Reach, anything, init, settle, spawn, IsCall, calls_start, calls_pause, calls_resume,
  calls_stop, calls_switch, calls_generate,
}
use openmodel.Engine.Rules.{Yields, Yields-map, Reach-keeps, total-spawn, total-settle}

-- 1 for a request between its `+= 1` and its `-= 1`.
abbrev pub in_flight : Task → ℕ
in_flight (Task.request_next stream r seen) = 1
in_flight (Task.request_aborting r reply) = 1
in_flight _ = 0

abbrev Counts : Task → VllmEngine → Move → Type 0
Counts t e m =
    (m.engine.active_requests + in_flight t ≡ e.active_requests + in_flight m.task)
    × (total in_flight m.spawned ≡ 0)

advance-Counts :
    (o : Outcome) (t : Task) (e : VllmEngine)
    → in_flight t ≤ e.active_requests
    → Yields (Counts t e) (advance o t e)
unfolding advance
advance-Counts o (Task.pause_wait u k) e b = ground arith
advance-Counts o _ e b = ground arith

-- The counter equals the number of requests under way.
abbrev pub IsCounted : System → Type 0
IsCounted s = s.engine.active_requests ≡ total in_flight s.tasks

IsCounted-spawn : (s : System) (c : Task) → IsCall c → IsCounted s → IsCounted (spawn c s)
unfolding spawn
IsCounted-spawn s c k v = omega (arith, total-spawn in_flight s c, weightless k)
  where
    weightless : {c : Task} → IsCall c → in_flight c ≡ 0
    weightless calls_start = refl
    weightless calls_pause = refl
    weightless calls_resume = refl
    weightless calls_stop = refl
    weightless calls_switch = refl
    weightless calls_generate = refl

IsCounted-settle :
    (s : System) (i : ℕ) (c : Task) (m : Move)
    → get_elem? s.tasks i ≡ some c
    → IsCounted s
    → Counts c s.engine m
    → IsCounted (settle i c m s)
unfolding settle
IsCounted-settle s i c m at v (kept, light) = omega (arith, total-settle in_flight s i c m at)

-- In every state that the calls, the loop and vLLM can bring about, whatever the order, the
-- counter of active requests equals the number of requests between their `+= 1` and their `-= 1`:
-- no branch leaks a request, none counts one twice, and the subtraction never goes below zero.
pub active_requests_exact :
    (device_ids : Option (List ℕ)) {s : System}
    → Reach anything (init device_ids) s
    → s.engine.active_requests ≡ total in_flight s.tasks
unfolding init
active_requests_exact device_ids r =
    Reach-keeps anything IsCounted IsCounted-spawn
      (λ s i o c at ok free v.
        Yields-map _ (λ m. IsCounted-settle s i c m at v)
          (advance-Counts o c s.engine (omega (arith, le-total in_flight s.tasks i at))))
      r refl
