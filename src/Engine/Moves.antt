-- ===== src/Engine/Moves.antt =====
-- src/py-inference/src/inference/engine.py: the coroutines of VLLMEngine as program counters: a `Task`
-- says at which await a coroutine stands. What follows when one returns to its caller.
use openmodel.Base.{Bool, true, false, List, [], ℕ, none, some, String, if◌then◌else◌}
use openmodel.Engine.State.{YieldUrgency, stopped, paused, loading, VllmEngine}
use openmodel.Engine.Sections.{
  AfterEnter, returned, drain, unload, Destroy, pause_finish, destroy_begin, destroy_step,
}

-- Who awaits the coroutine.
pub data Caller : Type 0 where
  top : Caller
  switch_pausing : String → Caller
  switch_resuming : Caller
  recovery : Caller

-- Who awaits `_destroy_engine`, with the transition lock held.
pub data Unloader : Type 0 where
  by_pause by_reload : Caller → Unloader
  by_start by_stop by_recover : Unloader

-- How a request ends.
pub data Reply : Type 0 where
  generated unavailable paused_midway no_output stalled core_died failed : Reply

pub data Task : Type 0 where
  pause_wait : YieldUrgency → Caller → Task
  pause_draining : Caller → Task
  pause_drained_wait : Caller → Task
  pause_unload_wait : Caller → Task
  destroying : Destroy → Unloader → Task
  resume_wait : Caller → Task
  reload_vram : ℕ → Caller → Task
  reload_create : ℕ → Caller → Task
  reload_done_wait : Caller → Task
  reload_failed_wait : Task
  exiting : Task
  start_wait : String → Task
  start_create : Task
  start_done_wait : Task
  start_failed_wait : Task
  stop_wait : Task
  switch_begin : String → Task
  switch_draining : String → Task
  recover_wait : Task
  request_begin : Bool → ℕ → Task  -- true: a stream
  request_next : Bool → ℕ → Bool → Task  -- the last: an output has been seen
  request_aborting : ℕ → Reply → Task
  request_done : Reply → Task
  finished : Task
  exited : Task

-- What an await of a task gives: it returns, a deadline passes, the engine is built or not, the
-- vLLM generator yields, ends, is silent too long, or raises.
pub data Outcome : Type 0 where
  woken deadline : Outcome
  created : ℕ → List ℕ → Outcome
  create_failed : Outcome
  output end_of_outputs stall core_death other_error : Outcome

-- The engine, where the task stands next, and the tasks that it created.
pub record Move : Type 0 where
  pub engine : VllmEngine
  pub task : Task
  pub spawned : List Task

unfoldable pub goto : VllmEngine → Task → Move
goto e t = record { engine = e; task = t; spawned = [] }

-- The awaited coroutine returns to its caller, which runs to its next await.
unfoldable pub leave : Caller → VllmEngine → Move
unfolding goto
leave top e = goto e finished
leave (switch_pausing new) e = goto (record e { model = new }) (resume_wait switch_resuming)
leave switch_resuming e = goto (record e { accepting = true }) finished
leave recovery e = goto (record e { recovering = false }) finished

-- What follows `_destroy_engine` in the section that awaits it.
unfoldable pub destroyed : Unloader → VllmEngine → Move
unfolding goto leave pause_finish
destroyed (by_pause k) e =
    let (e', again) = pause_finish e in if again then goto e' (reload_vram 1 k) else leave k e'
destroyed (by_reload k) e = leave k (record e { state = paused })
destroyed by_start e = goto (record e { state = paused }) finished
destroyed by_stop e = goto (record e { state = stopped }) finished
destroyed by_recover e = goto (record e { state = loading }) (reload_vram 1 recovery)

unfoldable pub destroy : Unloader → VllmEngine → Move
unfolding goto destroyed destroy_begin
destroy u e = elim (destroy_begin e) [ none ↦ destroyed u e | some d ↦ goto e (destroying d u) ]

unfoldable pub destroy_on : Destroy → Unloader → VllmEngine → Move
unfolding goto destroyed destroy_step
destroy_on d u e =
    let (e', rest) = destroy_step d e in
    elim rest [ none ↦ destroyed u e' | some d' ↦ goto e' (destroying d' u) ]

unfoldable pub after_enter : AfterEnter → Caller → VllmEngine → Move
unfolding goto leave
after_enter returned k e = leave k e
after_enter drain k e = goto e (pause_draining k)
after_enter unload k e = goto e (pause_unload_wait k)
