-- ===== src/Engine/Sections.antt =====
-- src/py-inference/src/inference/engine.py: what a coroutine of VLLMEngine does between two
-- awaits, as functions on the engine. An asyncio task runs such a piece without interruption; the
-- pieces under `async with self._transition_lock` are the lock's sections.
use openmodel.Base.{Bool, true, false, List, [], ◌∷◌, ℕ, Option, none, some, if◌then◌else◌}
use openmodel.Engine.State.{
  YieldUrgency, normal, immediate, EngineState, stopped, starting, running, unloading, paused,
  loading, dead, VllmEngine,
}

-- What `pause` does after its first section.
pub data AfterEnter : Type 0 where
  returned drain unload : AfterEnter

-- `pause` finds the engine running: a soft yield keeps it so and drains, an immediate one does not.
unfoldable pub pause_running : YieldUrgency → VllmEngine → VllmEngine × AfterEnter
pause_running normal e = (record e { accepting = false }, drain)
pause_running immediate e = (record e { state = unloading }, unload)

pause_by_state : EngineState → YieldUrgency → VllmEngine → VllmEngine × AfterEnter
unfolding pause_running
pause_by_state loading u e = (record e { pending_pause = some u }, returned)
pause_by_state starting u e = (record e { pending_pause = some u }, returned)
pause_by_state running u e = pause_running u e
pause_by_state _ u e = (e, returned)

-- The first section of `pause`.
unfoldable pub pause_enter : YieldUrgency → VllmEngine → VllmEngine × AfterEnter
unfolding pause_by_state
pause_enter u e = pause_by_state e.state u e

unload_if_running : EngineState → VllmEngine → VllmEngine × AfterEnter
unload_if_running running e = (record e { state = unloading }, unload)
unload_if_running _ e = (e, returned)

-- The section after the drain: another pause or a stop may have taken over.
unfoldable pub pause_drained : VllmEngine → VllmEngine × AfterEnter
unfolding unload_if_running
pause_drained e = unload_if_running e.state e

-- The end of the last section of `pause`, after `_destroy_engine`; true if it goes on to reload.
unfoldable pub pause_finish : VllmEngine → VllmEngine × Bool
pause_finish e =
    if e.pending_resume
    then (record e { accepting = true; pending_resume = false; state = loading }, true)
    else (record e { accepting = true; state = paused }, false)

resume_by_state : EngineState → VllmEngine → VllmEngine × Bool
resume_by_state unloading e = (record e { pending_resume = true }, false)
resume_by_state dead e = (e, false)
resume_by_state paused e = (record e { state = loading }, true)
resume_by_state _ e = (e, false)

-- The section of `resume`; true if it goes on to reload.
unfoldable pub resume_enter : VllmEngine → VllmEngine × Bool
unfolding resume_by_state
resume_enter e = resume_by_state e.state e

-- The section that ends `start` and `_do_reload`: a pending pause is taken up (true: unload again)
-- or the engine runs.
unfoldable pub load_finish : VllmEngine → VllmEngine × Bool
load_finish e = elim e.pending_pause [
  | some u ↦ (record e { pending_pause = none }, true)
  | none ↦ (record e { state = running }, false)
]

-- After three failed attempts; the process exits three seconds later.
unfoldable pub reload_give_up : VllmEngine → VllmEngine
reload_give_up e = record e { pending_pause = none; state = paused }

-- The sections of `start`: before the load, and after a load that raised.
unfoldable pub start_enter : VllmEngine → VllmEngine
start_enter e = record e { state = starting; accepting = true }

unfoldable pub start_failed : VllmEngine → VllmEngine
start_failed e = record e { state = stopped; pending_pause = none }

-- `_mark_dead`; true if it schedules a recovery task.
unfoldable pub mark_dead : VllmEngine → VllmEngine × Bool
mark_dead e =
    if e.recovering
    then (record e { state = dead }, false)
    else (record e { state = dead; recovering = true }, true)

-- Where `_destroy_engine` waits: on the aborts of the requests left, or for the processes to exit.
pub data Destroy : Type 0 where
  aborting : List ℕ → Destroy
  reaping : List ℕ → Destroy

-- `_destroy_engine` up to its first await; `none`: there is no engine and it has returned.
unfoldable pub destroy_begin : VllmEngine → Option Destroy
destroy_begin e = elim e.handle [ none ↦ none | some h ↦ some (aborting e.inflight_request_ids) ]

reap : List ℕ → VllmEngine → VllmEngine × Option Destroy
reap [] e = (record e { inflight_request_ids = []; handle = none; child_pids = [] }, none)
reap (p ∷ ps) e = (record e { inflight_request_ids = []; handle = none }, some (reaping (p ∷ ps)))

-- From one await of `_destroy_engine` to the next.
unfoldable pub destroy_step : Destroy → VllmEngine → VllmEngine × Option Destroy
unfolding reap
destroy_step (aborting (r ∷ rs)) e = (e, some (aborting rs))
destroy_step (aborting []) e = reap e.child_pids e
destroy_step (reaping pids) e = (record e { child_pids = [] }, none)
