-- ===== src/Engine/RaceExamples.antt =====
-- Single orders of events on an engine, and the theorems about them.
use openmodel.Base.{◌≡◌, refl, [], ◌∷◌, ◌++◌, Option, none, some, true, false}
use openmodel.Engine.State.{
  VllmEngine, EngineState, YieldUrgency, normal, immediate, running, paused, loading, dead,
}
use openmodel.Engine.Moves.{
  top, woken, created, pause_wait, resume_wait, reload_done_wait, recover_wait, switch_draining,
  finished,
}
use openmodel.Engine.System.{runs, schedule}
use openmodel.Engine.Races.{ticks, pair, resume_lost, pause_lost_when_dead, switch_overrides_yield}

-- An engine with a core and a request in flight.
abbrev busy : EngineState → Option YieldUrgency → VllmEngine
busy st noted = record {
  state = st;
  handle = some 7;
  model = "llama";
  device_ids = some (0 ∷ []);
  active_requests = 0;
  inflight_request_ids = 1 ∷ [];
  pending_pause = noted;
  pending_resume = false;
  child_pids = 100 ∷ [];
  accepting = true;
  recovering = false;
}

resume_lost_example :
    let s =
      schedule
        (runs 1 woken ∷ runs 0 woken ∷ ticks 3)
        (pair (reload_done_wait top) (resume_wait top) none (busy loading (some normal))) in
    (s.engine.state ≡ paused) × (s.tasks ≡ finished ∷ finished ∷ [])
resume_lost_example =
    resume_lost (busy loading (some normal)) {u = normal} {h = 7} refl refl refl refl

pause_lost_when_dead_example :
    let s =
      schedule
        ((runs 1 woken ∷ runs 0 woken ∷ ticks 3)
          ++ runs 0 woken ∷ runs 0 (created 8 []) ∷ runs 0 woken ∷ [])
        (pair recover_wait (pause_wait immediate top) none (busy dead none)) in
    (s.engine.state ≡ running) × (s.engine.handle ≡ some 8) × (s.tasks ≡ finished ∷ finished ∷ [])
pause_lost_when_dead_example =
    pause_lost_when_dead (busy dead none) immediate 8 [] {h = 7} refl refl refl refl

switch_overrides_yield_example :
    let before =
      pair (pause_wait immediate top) (switch_draining "qwen") none (busy running none) in
    let mid = schedule (runs 0 woken ∷ runs 0 woken ∷ ticks 3) before in
    let s =
      schedule
        (runs 1 woken
          ∷ runs 1 woken
          ∷ runs 1 woken
          ∷ runs 1 woken
          ∷ runs 1 (created 8 [])
          ∷ runs 1 woken
          ∷ [])
        mid in
    (mid.engine.state ≡ paused)
    × (mid.tasks ≡ finished ∷ switch_draining "qwen" ∷ [])
    × (s.engine.state ≡ running)
    × (s.engine.handle ≡ some 8)
    × (s.engine.model ≡ "qwen")
switch_overrides_yield_example =
    switch_overrides_yield (busy running none) "qwen" 8 [] {h = 7} refl refl refl refl refl refl
