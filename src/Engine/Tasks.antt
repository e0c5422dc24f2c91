-- ===== src/Engine/Tasks.antt =====
-- src/py-inference/src/inference/engine.py: `advance` runs a coroutine of VLLMEngine from the await at
-- which it stands to the next one.
use openmodel.Base.{
  Bool, true, false, ℕ, ◌+◌, Option, none, some, String, if◌then◌else◌, ltb, ◌==◌, ◌&&◌,
}
use text.Mathlib.Text.{◌==◌ as str_eq}
use openmodel.Engine.State.{normal, EngineState, stopping, VllmEngine, is_running}
use openmodel.Engine.Sections.{
  pause_enter, pause_drained, resume_enter, load_finish, reload_give_up, start_enter, start_failed,
}
use openmodel.Engine.Moves.{
  Caller, top, switch_pausing, recovery, Unloader, by_pause, by_reload, by_start, by_stop,
  by_recover, Task, pause_wait, pause_draining, pause_drained_wait, pause_unload_wait, destroying,
  resume_wait, reload_vram, reload_create, reload_done_wait, reload_failed_wait, exiting,
  start_wait, start_create, start_done_wait, start_failed_wait, stop_wait, switch_begin,
  switch_draining, recover_wait, request_begin, request_next, request_aborting, request_done,
  finished, exited, Outcome, woken, deadline, created, create_failed, Move, goto, leave, destroy,
  destroy_on, after_enter,
}
use openmodel.Engine.Requests.{request_call, request_step, request_end}

max_attempts : ℕ
max_attempts = 3

-- A load that raised: forget the engine and try again, or give up.
reload_retry : ℕ → Caller → VllmEngine → Move
unfolding goto max_attempts
reload_retry attempt k e =
    if ltb attempt max_attempts
    then goto (record e { handle = none }) (reload_vram (attempt + 1) k)
    else goto e reload_failed_wait

reload_step : Outcome → ℕ → Caller → VllmEngine → Option Move
unfolding goto reload_retry
reload_step (created h pids) attempt k e =
    some (goto (record e { handle = some h; child_pids = pids }) (reload_done_wait k))
reload_step create_failed attempt k e = some (reload_retry attempt k e)
reload_step _ attempt k e = none

start_step : Outcome → VllmEngine → Option Move
unfolding goto
start_step (created h pids) e =
    some (goto (record e { handle = some h; child_pids = pids }) start_done_wait)
start_step create_failed e = some (goto e start_failed_wait)
start_step _ e = none

-- The test of the loop in `_drain_requests`, with the deadline passed or not.
drain_step : Outcome → Task → VllmEngine → Task → Option Move
unfolding goto
drain_step deadline here e next = some (goto e next)
drain_step woken here e next = some (goto e (if e.active_requests == 0 then next else here))
drain_step _ here e next = none

abbrev on_woken : Outcome → Move → Option Move
on_woken woken m = some m
on_woken _ m = none

switch_enter : String → VllmEngine → Move
unfolding goto
switch_enter new e =
    if str_eq e.model new && is_running e.state
    then goto e finished
    else goto (record e { accepting = false }) (switch_draining new)

recover_enter : VllmEngine → Move
unfolding goto leave destroy
recover_enter e = elim e.state [ EngineState.dead ↦ destroy by_recover e | _ ↦ leave recovery e ]

load_end : Bool → Unloader → Caller → VllmEngine → Move
unfolding leave destroy
load_end true u k e = destroy u e
load_end false u k e = leave k e

-- `none`: the task has ended, or its await cannot give that outcome.
unfoldable pub advance : Outcome → Task → VllmEngine → Option Move
unfolding goto leave destroy destroy_on after_enter request_call request_step request_end
    reload_step start_step drain_step switch_enter recover_enter load_end pause_enter pause_drained
    resume_enter load_finish reload_give_up start_enter start_failed
advance o (pause_wait u k) e =
    on_woken o (let (e', next) = pause_enter u e in after_enter next k e')
advance o (pause_draining k) e = drain_step o (pause_draining k) e (pause_drained_wait k)
advance o (pause_drained_wait k) e =
    on_woken o (let (e', next) = pause_drained e in after_enter next k e')
advance o (pause_unload_wait k) e = on_woken o (destroy (by_pause k) e)
advance o (destroying d u) e = on_woken o (destroy_on d u e)
advance o (resume_wait k) e =
    on_woken o
      (let (e', go) = resume_enter e in if go then goto e' (reload_vram 1 k) else leave k e')
advance o (reload_vram n k) e = on_woken o (goto e (reload_create n k))
advance o (reload_create n k) e = reload_step o n k e
advance o (reload_done_wait k) e =
    on_woken o (let (e', again) = load_finish e in load_end again (by_reload k) k e')
advance o reload_failed_wait e = on_woken o (goto (reload_give_up e) exiting)
advance o exiting e = on_woken o (goto e exited)
advance o (start_wait path) e =
    on_woken o (goto (record (start_enter e) { model = path }) start_create)
advance o start_create e = start_step o e
advance o start_done_wait e =
    on_woken o (let (e', again) = load_finish e in load_end again by_start top e')
advance o start_failed_wait e = on_woken o (goto (start_failed e) finished)
advance o stop_wait e = on_woken o (destroy by_stop (record e { state = stopping }))
advance o (switch_begin new) e = on_woken o (switch_enter new e)
advance o (switch_draining new) e =
    drain_step o (switch_draining new) e (pause_wait normal (switch_pausing new))
advance o recover_wait e = on_woken o (recover_enter e)
advance o (request_begin stream r) e = request_call o stream r e
advance o (request_next stream r seen) e = request_step o stream r seen e
advance o (request_aborting r reply) e = on_woken o (request_end r reply e)
advance o (request_done reply) e = none
advance o finished e = none
advance o exited e = none
