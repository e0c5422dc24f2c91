-- ===== src/Engine/LifeExamples.antt =====
-- Lives of an engine, and the theorems about its core and its life at them.
use openmodel.Base.{
  ℕ, ◌≡◌, ◌≢◌, refl, ◌≤◌, List, [], ◌∷◌, ◌++◌, none, some, true, false, total, is_some, arith,
  replicate, get_elem?, ◌&&◌,
}
use openmodel.Engine.State.{VllmEngine, new_engine, immediate, running, unloading, paused}
use openmodel.Engine.Moves.{
  Task, top, woken, pause_wait, pause_unload_wait, finished, generated, request_done, request_next,
}
use openmodel.Engine.Moves.{Outcome, by_start}
use openmodel.Engine.Tasks.{advance}
use openmodel.Engine.System.{
  System, run, Reach, here, anything, init, Round, calls, runs, schedule, exec_task, needs_lock,
}
use openmodel.Engine.Phases.{timely}
use openmodel.Engine.Schedules.{schedule-Reach, permits}
use openmodel.Engine.Release.{is_resting}
use openmodel.Engine.Commitment.{yielding}
use openmodel.Engine.Yield.{yield_lands, under_way}
use openmodel.Engine.Sections.{aborting}
use openmodel.Engine.Completion.{wakes, HasPaused, pause_completes}
use openmodel.Engine.Progress.{wakes_left, never_deadlocked, lock_freed}
use openmodel.Engine.Lifecycle.{lifecycle_refined, life, may_follow}
use openmodel.Engine.Examples.{one_gpu, serving, starting_up, after, started}

-- The engine serves, and mining asks for the GPU.
abbrev asked : List Round
asked = serving ++ calls (pause_wait immediate top) ∷ []

-- The engine with its second request in flight, and its tasks, `ts` after those of the calls before.
abbrev serving_engine : VllmEngine
serving_engine = record {
  state = running;
  handle = some 7;
  model = "llama";
  device_ids = one_gpu;
  active_requests = 1;
  inflight_request_ids = 2 ∷ [];
  pending_pause = none;
  pending_resume = false;
  child_pids = 100 ∷ 101 ∷ [];
  accepting = true;
  recovering = false;
}

abbrev with_pause : List Task → VllmEngine → System
with_pause ts e = record {
  engine = e;
  lock = none;
  tasks = finished ∷ request_done generated ∷ request_next false 2 true ∷ ts;
  exited = false;
}

abbrev entered : System
entered = with_pause (pause_unload_wait top ∷ []) (record serving_engine { state = unloading })

-- The rest of the pause, and another one.
abbrev unloading_rounds : List Round
unloading_rounds =
    runs 3 woken
    ∷ calls (pause_wait immediate top)
    ∷ runs 3 woken
    ∷ runs 3 woken
    ∷ runs 3 woken
    ∷ runs 4 woken
    ∷ []

abbrev landed : System
landed = with_pause (finished ∷ finished ∷ []) (record serving_engine {
  state = paused;
  handle = none;
  inflight_request_ids = [];
  child_pids = [];
})

asked-Reach : Reach timely (init one_gpu) (after asked)
unfolding permits schedule init advance exec_task
asked-Reach = schedule-Reach timely _ _ asked here refl

landed-Reach : Reach yielding entered landed
unfolding permits schedule init advance exec_task
landed-Reach = schedule-Reach yielding entered entered unloading_rounds here refl

yield_lands_example :
    (immediate ≡ immediate → landed.engine.state ≢ running)
    × (total under_way landed.tasks ≡ 0
        → (is_resting landed.engine.state ≡ true)
          × (landed.engine.handle ≡ none)
          × (landed.engine.child_pids ≡ []))
unfolding schedule init advance exec_task
yield_lands_example =
    yield_lands one_gpu 3 {k = top} asked-Reach refl (ground arith) refl refl landed-Reach

landed_rests : (total under_way landed.tasks ≡ 0) × (is_resting landed.engine.state ≡ true)
unfolding schedule init advance exec_task
landed_rests = (refl, refl)

lifecycle_refined_example : may_follow (life (after asked).engine) (life entered.engine) ≡ true
unfolding schedule init advance exec_task
lifecycle_refined_example =
    lifecycle_refined one_gpu asked-Reach (run 3 woken (pause_wait immediate top) refl refl refl)

pause_completes_example : HasPaused 3 (schedule (wakes 3 5) (after asked))
unfolding schedule init advance exec_task
pause_completes_example = pause_completes one_gpu 3 asked-Reach refl refl refl refl

-- The start unloads again, with the lock, and another pause waits for the lock.
abbrev contended : List Round
contended = starting_up ++ runs 0 woken ∷ calls (pause_wait immediate top) ∷ []

never_deadlocked_example :
    let s = after contended in
    (j k : ℕ) × (k ≤ total wakes_left s.tasks)
    × ((needs_lock (pause_wait immediate top) && is_some s.lock) ≡ false → k ≡ 0)
    × (let w = schedule (replicate k (runs j woken)) s in
        (get_elem? w.tasks 2 ≡ some (pause_wait immediate top))
        × ((o : Outcome) × (t : System) × (exec_task 2 o (pause_wait immediate top) w ≡ some t)))
unfolding schedule init advance exec_task
never_deadlocked_example =
    never_deadlocked one_gpu 2 {c = pause_wait immediate top}
      (schedule-Reach anything _ _ contended here (unfold permits in refl)) refl refl refl

lock_freed_example :
    (k : ℕ) × (k ≤ 2) × ((schedule (replicate k (runs 0 woken)) started).lock ≡ none)
unfolding new_engine
lock_freed_example = lock_freed 0 {d = aborting []} {u = by_start} started refl refl
