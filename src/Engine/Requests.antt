-- ===== src/Engine/Requests.antt =====
-- src/py-inference/src/inference/engine.py: `generate` and `generate_stream`, from one await to the next.
use openmodel.Base.{
  Bool, true, false, [], ◌∷◌, ℕ, ◌+◌, ◌-◌, Option, none, some, if◌then◌else◌, discard, is_some,
  ◌||◌,
}
use openmodel.Engine.State.{VllmEngine, is_available, is_running}
use openmodel.Engine.Sections.{mark_dead}
use openmodel.Engine.Moves.{
  Reply, generated, unavailable, paused_midway, no_output, stalled, core_died, failed, recover_wait,
  request_next, request_aborting, request_done, Outcome, woken, output, end_of_outputs, stall,
  core_death, other_error, Move, goto,
}

-- The `finally` of `generate` and `generate_stream`.
unfoldable pub request_end : ℕ → Reply → VllmEngine → Move
unfolding goto
request_end r reply e =
    goto
      (record e {
        active_requests = e.active_requests - 1;
        inflight_request_ids = discard r e.inflight_request_ids;
      })
      (request_done reply)

request_enter : Bool → ℕ → VllmEngine → Move
unfolding goto is_available
request_enter stream r e =
    if is_available e
    then goto
        (record e {
          active_requests = e.active_requests + 1;
          inflight_request_ids = r ∷ e.inflight_request_ids;
        })
        (request_next stream r false)
    else goto e (request_done unavailable)

-- `SamplingParams` raises before the request counts as active.
request_rejected : VllmEngine → Move
unfolding goto is_available
request_rejected e =
    goto e (if is_available e then request_done failed else request_done unavailable)

unfoldable pub request_call : Outcome → Bool → ℕ → VllmEngine → Option Move
unfolding request_enter request_rejected
request_call woken stream r e = some (request_enter stream r e)
request_call other_error stream r e = some (request_rejected e)
request_call _ stream r e = none

-- An output arrives: a request that finds the engine not running aborts itself.
request_output : Bool → ℕ → VllmEngine → Move
unfolding goto request_end
request_output stream r e =
    if is_running e.state
    then goto e (request_next stream r true)
    else if is_some e.handle
    then goto e (request_aborting r paused_midway)
    else request_end r paused_midway e

-- The outputs end; a stream with no output ends silently.
request_finish : Bool → ℕ → Bool → VllmEngine → Move
unfolding request_end
request_finish stream r seen e =
    if seen || stream then request_end r generated e else request_end r no_output e

-- EngineDeadError: `_mark_dead`, then the `finally`.
request_died : ℕ → VllmEngine → Move
unfolding request_end mark_dead
request_died r e =
    let (e', schedule) = mark_dead e in
    if schedule
    then record (request_end r core_died e') { spawned = recover_wait ∷ [] }
    else request_end r core_died e'

unfoldable pub request_step : Outcome → Bool → ℕ → Bool → VllmEngine → Option Move
unfolding goto request_output request_finish request_died request_end
request_step output stream r seen e = some (request_output stream r e)
request_step end_of_outputs stream r seen e = some (request_finish stream r seen e)
request_step stall stream r seen e = some (goto e (request_aborting r stalled))
request_step core_death stream r seen e = some (request_died r e)
request_step other_error stream r seen e = some (request_end r failed e)
request_step _ stream r seen e = none
