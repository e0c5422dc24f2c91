-- ===== src/Engine/System.antt =====
-- src/py-inference/src/inference/engine.py: one VLLMEngine under an asyncio event loop. The loop
-- runs any task whose await is over; a task at `async with self._transition_lock` runs when the
-- lock is free. asyncio wakes waiters in order; here they may be woken in any order.
use openmodel.Base.{
  Bool, true, false, List, [], ◌∷◌, ◌++◌, ℕ, Option, none, some, if◌then◌else◌, get_elem?, set,
  is_some, ◌&&◌, ◌≡◌,
}
use openmodel.Engine.State.{VllmEngine, EngineState, YieldUrgency, new_engine}
use openmodel.Engine.Moves.{
  Task, top, Outcome, Move, pause_wait, resume_wait, start_wait, stop_wait, switch_begin,
  request_begin,
}
use openmodel.Engine.Tasks.{advance}

-- The next piece of the task is a section of the transition lock, which it has to acquire.
unfoldable pub needs_lock : Task → Bool
needs_lock (Task.pause_wait u k) = true
needs_lock (Task.pause_drained_wait k) = true
needs_lock (Task.pause_unload_wait k) = true
needs_lock (Task.resume_wait k) = true
needs_lock (Task.reload_done_wait k) = true
needs_lock Task.reload_failed_wait = true
needs_lock (Task.start_wait path) = true
needs_lock Task.start_done_wait = true
needs_lock Task.start_failed_wait = true
needs_lock Task.stop_wait = true
needs_lock Task.recover_wait = true
needs_lock _ = false

-- The task awaits inside a section, with the lock in its hands.
unfoldable pub holds_lock : Task → Bool
holds_lock (Task.destroying d u) = true
holds_lock _ = false

unfoldable pub has_exited : Task → Bool
has_exited Task.exited = true
has_exited _ = false

pub record System : Type 0 where
  pub engine : VllmEngine
  pub lock : Option ℕ  -- the task that holds the transition lock
  pub tasks : List Task
  pub exited : Bool  -- os._exit was called

unfoldable pub init : Option (List ℕ) → System
unfolding new_engine
init device_ids = record { engine = new_engine device_ids; lock = none; tasks = []; exited = false }

-- The lock after a piece of task `i`, which stood at `t` and stands at `t'`.
unfoldable pub relock : ℕ → Task → Task → Option ℕ → Option ℕ
unfolding holds_lock
relock i t t' l = if holds_lock t' then some i else if holds_lock t then none else l

unfoldable pub settle : ℕ → Task → Move → System → System
unfolding relock has_exited
settle i t m s = record {
  engine = m.engine;
  lock = relock i t m.task s.lock;
  tasks = set s.tasks i m.task ++ m.spawned;
  exited = has_exited m.task;
}

-- The loop runs task `i`, at `t`, whose await gave `o`.
unfoldable pub exec_task : ℕ → Outcome → Task → System → Option System
unfolding settle needs_lock
exec_task i o t s =
    if s.exited
    then none
    else if needs_lock t && is_some s.lock
    then none
    else elim (advance o t s.engine) [ none ↦ none | some m ↦ some (settle i t m s) ]

unfoldable pub exec : ℕ → Outcome → System → Option System
unfolding exec_task
exec i o s = elim (get_elem? s.tasks i) [ none ↦ none | some t ↦ exec_task i o t s ]

-- A coroutine of the engine is called: a new task.
unfoldable pub spawn : Task → System → System
spawn t s = record s { tasks = s.tasks ++ t ∷ [] }

-- The calls that the pool, the listener and the API server make.
pub data IsCall : Task → Type 0 where
  calls_start : {path : _} → IsCall (start_wait path)
  calls_pause : {u : YieldUrgency} → IsCall (pause_wait u top)
  calls_resume : IsCall (resume_wait top)
  calls_stop : IsCall stop_wait
  calls_switch : {path : _} → IsCall (switch_begin path)
  calls_generate : {stream : Bool} {r : ℕ} → IsCall (request_begin stream r)

-- What the environment may do, by outcome, task and engine state.
abbrev pub Rule : Type 0
Rule = Outcome → Task → EngineState → Bool

pub data Step (rule : Rule) (s t : System) : Type 0 where
  call : (c : Task) → IsCall c → t ≡ spawn c s → Step rule s t
  run :
      (i : ℕ) (o : Outcome) (c : Task)
      → get_elem? s.tasks i ≡ some c
      → rule o c s.engine.state ≡ true
      → exec_task i o c s ≡ some t
      → Step rule s t

pub data Reach (rule : Rule) (s : System) : System → Type 0 where
  here : Reach rule s s
  next : {t u : System} → Reach rule s t → Step rule t u → Reach rule s u

abbrev pub anything : Rule
anything o t state = true

-- A schedule: which task runs, and what its await gives. A round that cannot be run is skipped.
pub data Round : Type 0 where
  calls : Task → Round
  runs : ℕ → Outcome → Round

unfoldable pub round : Round → System → System
unfolding spawn exec
round (calls c) s = spawn c s
round (runs i o) s = elim (exec i o s) [ none ↦ s | some t ↦ t ]

unfoldable pub schedule : List Round → System → System
unfolding round
schedule [] s = s
schedule (r ∷ rs) s = schedule rs (round r s)
