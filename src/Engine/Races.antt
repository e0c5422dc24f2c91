-- ===== src/Engine/Races.antt =====
-- src/py-inference/src/inference/engine.py: orders of events that an asyncio loop allows, and in
-- which a command of the miner is lost.
use openmodel.Base.{
  Bool, ◌≡◌, refl, ℕ, suc, List, [], ◌∷◌, ◌++◌, Option, none, some, arith, false, length, replicate,
  String,
}
use openmodel.Engine.State.{
  VllmEngine, YieldUrgency, immediate, running, unloading, loading, paused, dead, stopped,
}
use openmodel.Engine.Sections.{aborting}
use openmodel.Engine.Moves.{
  Task, Unloader, top, woken, created, pause_wait, destroying, destroyed, by_pause, by_reload,
  by_recover, finished, reload_done_wait, reload_create, resume_wait, recover_wait, stop_wait,
  request_next, request_done, core_died, core_death, switch_draining,
}
use openmodel.Engine.Tasks.{advance}
use openmodel.Engine.System.{System, Round, round, runs, schedule}

-- The first task, whose awaits all return.
abbrev pub ticks : ℕ → List Round
ticks n = replicate n (runs 0 woken)

-- Two tasks.
abbrev pub pair : Task → Task → Option ℕ → VllmEngine → System
pair t other lock e = record { engine = e; lock = lock; tasks = t ∷ other ∷ []; exited = false }

-- The engine without its core.
abbrev emptied : VllmEngine → VllmEngine
emptied e = record e { handle = none; inflight_request_ids = []; child_pids = [] }

unload_lem :
    (u : Unloader) (rs : List ℕ) (other : Task) (e : VllmEngine) {p : ℕ} {ps : List ℕ}
    → e.child_pids ≡ p ∷ ps
    → schedule (ticks (suc (suc (length rs)))) (pair (destroying (aborting rs) u) other (some 0) e)
      ≡ pair (destroyed u (emptied e)).task other none (destroyed u (emptied e)).engine
unfolding schedule advance
unload_lem (by_pause top) [] other e h = ground arith
unload_lem (by_reload top) [] other e h = ground arith
unload_lem _ [] other e h = ground arith
unload_lem u (r ∷ rs) other e h = ground (arith, unload_lem u rs other e h)

schedule-append :
    (xs ys : List Round) (s : System) → schedule (xs ++ ys) s ≡ schedule ys (schedule xs s)
unfolding schedule
schedule-append [] ys s = refl
schedule-append (x ∷ xs) ys s = schedule-append xs ys (round x s)

-- A load is under way and a pause has been noted; the miner is done and `resume` is called before
-- the load ends. The resume returns having changed nothing, the load unloads again, and the engine
-- rests in PAUSED with no task left to wake it.
pub resume_lost :
    (e : VllmEngine) {u : YieldUrgency} {h p : ℕ} {ps : List ℕ}
    → e.state ≡ loading
    → e.pending_pause ≡ some u
    → e.handle ≡ some h
    → e.child_pids ≡ p ∷ ps
    → let s =
        schedule
          (runs 1 woken ∷ runs 0 woken ∷ ticks (suc (suc (length e.inflight_request_ids))))
          (pair (reload_done_wait top) (resume_wait top) none e) in
      (s.engine.state ≡ paused) × (s.tasks ≡ finished ∷ finished ∷ [])
unfolding schedule advance
resume_lost e st noted built pids = ground (
  arith,
  unload_lem (by_reload top) e.inflight_request_ids finished (record e { pending_pause = none })
      pids,
)

-- A yield arrives while the engine is dead, before the recovery task has run. The pause returns
-- having noted nothing, and the recovery then brings the engine up RUNNING with a core on the GPU.
pub pause_lost_when_dead :
    (e : VllmEngine) (u : YieldUrgency) (h' : ℕ) (pids : List ℕ) {h p : ℕ} {ps : List ℕ}
    → e.state ≡ dead
    → e.pending_pause ≡ none
    → e.handle ≡ some h
    → e.child_pids ≡ p ∷ ps
    → let s =
        schedule
          ((runs 1 woken ∷ runs 0 woken ∷ ticks (suc (suc (length e.inflight_request_ids))))
            ++ runs 0 woken ∷ runs 0 (created h' pids) ∷ runs 0 woken ∷ [])
          (pair recover_wait (pause_wait u top) none e) in
      (s.engine.state ≡ running)
      × (s.engine.handle ≡ some h')
      × (s.tasks ≡ finished ∷ finished ∷ [])
unfolding schedule advance
pause_lost_when_dead e u h' pids st quiet built procs =
    rw
      (schedule-append
        (runs 1 woken ∷ runs 0 woken ∷ ticks (suc (suc (length e.inflight_request_ids))))
        (runs 0 woken ∷ runs 0 (created h' pids) ∷ runs 0 woken ∷ []))
      (ground (arith, unload_lem by_recover e.inflight_request_ids finished e procs))

-- A yield arrives while `switch_model` drains the engine. The pause completes and returns, and the
-- switch then resumes the engine: it runs the new model on the GPU that was given to the miner.
pub switch_overrides_yield :
    (e : VllmEngine) (new : String) (h' : ℕ) (pids : List ℕ) {h p : ℕ} {ps : List ℕ}
    → e.state ≡ running
    → e.handle ≡ some h
    → e.child_pids ≡ p ∷ ps
    → e.active_requests ≡ 0
    → e.pending_pause ≡ none
    → e.pending_resume ≡ false
    → let before = pair (pause_wait immediate top) (switch_draining new) none e in
      let mid =
        schedule
          (runs 0 woken ∷ runs 0 woken ∷ ticks (suc (suc (length e.inflight_request_ids))))
          before in
      let s =
        schedule
          (runs 1 woken
            ∷ runs 1 woken
            ∷ runs 1 woken
            ∷ runs 1 woken
            ∷ runs 1 (created h' pids)
            ∷ runs 1 woken
            ∷ [])
          mid in
      (mid.engine.state ≡ paused)
      × (mid.tasks ≡ finished ∷ switch_draining new ∷ [])
      × (s.engine.state ≡ running)
      × (s.engine.handle ≡ some h')
      × (s.engine.model ≡ new)
unfolding schedule advance
switch_overrides_yield e new h' pids st built procs calm quiet still = ground (
  arith,
  unload_lem (by_pause top) e.inflight_request_ids (switch_draining new)
      (record e { state = unloading }) procs,
)

-- `stop` during a load does not stop the load: it leaves the engine STOPPED, and the load that ends
-- later sets it RUNNING.
stop_undone_by_load :
    (e : VllmEngine) (h : ℕ) (pids : List ℕ)
    → e.state ≡ loading
    → e.handle ≡ none
    → e.pending_pause ≡ none
    → let mid = schedule (runs 1 woken ∷ []) (pair (reload_create 1 top) stop_wait none e) in
      let s = schedule (runs 0 (created h pids) ∷ runs 0 woken ∷ []) mid in
      (mid.engine.state ≡ stopped)
      × (mid.tasks ≡ reload_create 1 top ∷ finished ∷ [])
      × (s.engine.state ≡ running)
      × (s.engine.handle ≡ some h)
unfolding schedule advance
stop_undone_by_load e h pids st built quiet = ground arith

-- A request that is still under way after a pause gets the report that the core died. The paused
-- engine becomes DEAD, and the recovery task reloads the model: it runs on the GPU of the miner.
late_death_reloads :
    (e : VllmEngine) (stream : Bool) (r h : ℕ) (seen : Bool) (pids : List ℕ)
    → e.state ≡ paused
    → e.handle ≡ none
    → e.recovering ≡ false
    → e.pending_pause ≡ none
    → let s =
        schedule
          (runs 0 core_death
            ∷ runs 1 woken
            ∷ runs 1 woken
            ∷ runs 1 (created h pids)
            ∷ runs 1 woken
            ∷ [])
          (record {
            engine = e;
            lock = none;
            tasks = request_next stream r seen ∷ [];
            exited = false;
          }) in
      (s.engine.state ≡ running)
      × (s.engine.handle ≡ some h)
      × (s.tasks ≡ request_done core_died ∷ finished ∷ [])
unfolding schedule advance
late_death_reloads e stream r h seen pids st gone calm quiet = ground arith
