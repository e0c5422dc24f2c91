-- ===== src/Mock/Tasks.antt =====
-- src/py-inference/src/inference/engine.py: MockEngine, whose coroutines sleep where VLLMEngine
-- works. It has no lock; a coroutine runs from one sleep to the next.
use openmodel.Base.{
  ℕ, ◌+◌, ◌-◌, Bool, ◌&&◌, List, [], ◌∷◌, Option, none, some, String, if◌then◌else◌, ltb, get_elem?,
  set, ◌++◌,
}
use text.Mathlib.Text.{◌==◌ as str_eq}
use openmodel.Engine.State.{
  YieldUrgency, EngineState, stopped, starting, running, unloading, paused, loading, EngineStatus,
  gpu, is_running,
}

pub record MockEngine : Type 0 where
  pub state : EngineState
  pub model : String
  pub active_requests : ℕ
  pub gpu_id : ℕ

-- `MockEngine.__init__`; the latency is the length of a sleep.
unfoldable pub new_mock : ℕ → MockEngine
new_mock g = record { state = stopped; model = ""; active_requests = 0; gpu_id = g }

unfoldable pub mock_is_available : MockEngine → Bool
mock_is_available e = is_running e.state

unfoldable pub mock_status : MockEngine → EngineStatus
mock_status e = record {
  state = e.state;
  active_requests = e.active_requests;
  loaded_model = e.model;
  gpu_id = gpu e.gpu_id;
}

-- Who awaits: nobody, or `switch_model` with the new model.
pub data MockCaller : Type 0 where
  alone : MockCaller
  switching_to : String → MockCaller

-- Where a coroutine sleeps, or that it is about to run.
pub data MockTask : Type 0 where
  mock_start : String → MockTask
  mock_starting : String → MockTask
  mock_pause : YieldUrgency → MockTask
  mock_unloading : MockCaller → MockTask
  mock_resume : MockTask
  mock_loading : MockTask
  mock_stop : MockTask
  mock_switch : String → MockTask
  mock_generate : Bool → MockTask  -- true: a stream
  mock_waiting : Bool → ℕ → MockTask  -- the sleeps that are left
  mock_refused mock_done : MockTask

abbrev pub MockMove : Type 0
MockMove = MockEngine × MockTask

-- `resume` up to its sleep.
unfoldable pub mock_resume_begin : MockEngine → MockMove
mock_resume_begin e = elim e.state [
  | EngineState.paused ↦ (record e { state = loading }, mock_loading)
  | _ ↦ (e, mock_done)
]

-- `pause` has returned to its caller.
unfoldable pub mock_paused : MockCaller → MockEngine → MockMove
unfolding mock_resume_begin
mock_paused alone e = (e, mock_done)
mock_paused (switching_to new) e = mock_resume_begin (record e { model = new })

-- `pause` up to its sleep.
unfoldable pub mock_pause_begin : MockCaller → MockEngine → MockMove
unfolding mock_paused
mock_pause_begin k e = elim e.state [
  | EngineState.running ↦ (record e { state = unloading }, mock_unloading k)
  | _ ↦ mock_paused k e
]

unfoldable pub mock_switch_begin : String → MockEngine → MockMove
unfolding mock_pause_begin
mock_switch_begin new e =
    if str_eq e.model new && is_running e.state
    then (e, mock_done)
    else mock_pause_begin (switching_to new) e

-- `generate` sleeps once; `generate_stream` sleeps before each of its four words.
unfoldable pub mock_generate_begin : Bool → MockEngine → MockMove
unfolding mock_is_available
mock_generate_begin stream e =
    if mock_is_available e
    then (
      record e { active_requests = e.active_requests + 1 },
      mock_waiting stream (if stream then 3 else 0),
    )
    else (e, mock_refused)

-- A sleep of a request is over.
unfoldable pub mock_wait_over : Bool → ℕ → MockEngine → MockMove
mock_wait_over stream n e =
    if ltb 0 n
    then (e, mock_waiting stream (n - 1))
    else (record e { active_requests = e.active_requests - 1 }, mock_done)

-- A coroutine runs to its next sleep; `none`: it has ended.
unfoldable pub mock_advance : MockTask → MockEngine → Option MockMove
unfolding mock_resume_begin mock_paused mock_pause_begin mock_switch_begin mock_generate_begin
    mock_wait_over
mock_advance (mock_start path) e = some (record e { state = starting }, mock_starting path)
mock_advance (mock_starting path) e = some (record e { model = path; state = running }, mock_done)
mock_advance (mock_pause u) e = some (mock_pause_begin alone e)
mock_advance (mock_unloading k) e = some (mock_paused k (record e { state = paused }))
mock_advance mock_resume e = some (mock_resume_begin e)
mock_advance mock_loading e = some (record e { state = running }, mock_done)
mock_advance mock_stop e = some (record e { state = stopped; model = "" }, mock_done)
mock_advance (mock_switch new) e = some (mock_switch_begin new e)
mock_advance (mock_generate stream) e = some (mock_generate_begin stream e)
mock_advance (mock_waiting stream n) e = some (mock_wait_over stream n e)
mock_advance mock_refused e = none
mock_advance mock_done e = none

-- The engine and its coroutines.
pub record MockSystem : Type 0 where
  pub engine : MockEngine
  pub tasks : List MockTask

-- A coroutine is called, or one is woken.
pub data MockRound : Type 0 where
  mock_calls : MockTask → MockRound
  mock_wakes : ℕ → MockRound

unfoldable pub mock_run : ℕ → MockTask → MockSystem → MockSystem
unfolding mock_advance
mock_run i t s = elim (mock_advance t s.engine) [
  | none ↦ s
  | some m ↦ record { engine = m.0; tasks = set s.tasks i (m.1) }
]

unfoldable pub mock_round : MockRound → MockSystem → MockSystem
unfolding mock_run
mock_round (mock_calls t) s = record s { tasks = s.tasks ++ t ∷ [] }
mock_round (mock_wakes i) s = elim (get_elem? s.tasks i) [ none ↦ s | some t ↦ mock_run i t s ]

unfoldable pub mock_schedule : List MockRound → MockSystem → MockSystem
unfolding mock_round
mock_schedule [] s = s
mock_schedule (r ∷ rs) s = mock_schedule rs (mock_round r s)
