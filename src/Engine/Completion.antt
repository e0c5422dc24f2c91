-- ===== src/Engine/Completion.antt =====
-- src/py-inference/src/inference/engine.py: a pause of a serving engine, run to its end.
use openmodel.Base.{
  ◌≡◌, refl, sym, subst, ℕ, suc, List, [], ◌∷◌, Option, none, some, arith, true, false, ◌++◌,
  length, replicate, get_elem?, set, is_some, ◌&&◌, Option-cases, inl, inr,
}
use openmodel.Engine.State.{VllmEngine, immediate, running, unloading, paused}
use openmodel.Engine.Sections.{Destroy, aborting, reaping}
use openmodel.Engine.Moves.{
  Task, Move, top, woken, pause_wait, pause_unload_wait, destroying, by_pause, finished,
}
use openmodel.Engine.Tasks.{advance}
use openmodel.Engine.System.{
  System, Reach, Round, runs, init, round, schedule, settle, exec, exec_task, needs_lock, relock,
  holds_lock, has_exited,
}
use openmodel.Engine.Phases.{timely}
use openmodel.Engine.Safety.{Reach-IsSafe}
use openmodel.Engine.Cores.{Reach-IsCored}
use openmodel.Engine.Leaving.{get_elem?-settled}

-- One task, whose awaits all return.
abbrev pub wakes : ℕ → ℕ → List Round
wakes i n = replicate n (runs i woken)

-- The task `i` has paused the engine, and nothing of it is left on the GPU.
pub record HasPaused (i : ℕ) (s : System) : Type 0 where
  pub state : s.engine.state ≡ paused
  pub handle : s.engine.handle ≡ none
  pub child_pids : s.engine.child_pids ≡ []
  pub inflight : s.engine.inflight_request_ids ≡ []
  pub lock_free : s.lock ≡ none
  pub done : get_elem? s.tasks i ≡ some finished

-- A task that may run makes its move.
move_round :
    (i : ℕ) (c : Task) (m : Move) (s : System)
    → s.exited ≡ false
    → get_elem? s.tasks i ≡ some c
    → (needs_lock c && is_some s.lock) ≡ false
    → advance woken c s.engine ≡ some m
    → round (runs i woken) s ≡ settle i c m s
unfolding round exec exec_task
move_round i c m s up at free moved = ground arith

-- Nothing more happens to a task that is over.
rest_round : (i : ℕ) (s : System) → get_elem? s.tasks i ≡ some finished → round (runs i woken) s ≡ s
unfolding round exec exec_task advance
rest_round i s at = ground arith

-- The engine after a pause.
abbrev released_engine : VllmEngine → VllmEngine
released_engine e = record e {
  state = paused;
  handle = none;
  inflight_request_ids = [];
  child_pids = [];
  accepting = true;
}

abbrev released_by : VllmEngine → Move
released_by e = record { engine = released_engine e; task = finished; spawned = [] }

released-HasPaused :
    (i : ℕ) (d : Destroy) (e : VllmEngine) (s : System)
    → get_elem? s.tasks i ≡ some (destroying d (by_pause top))
    → HasPaused i (settle i (destroying d (by_pause top)) (released_by e) s)
unfolding settle relock holds_lock
released-HasPaused i d e s at = record {
  state = refl;
  handle = refl;
  child_pids = refl;
  inflight = refl;
  lock_free = refl;
  done = get_elem?-settled s.tasks i finished [] at;
}

-- The last section, when the processes are gone.
last_wake :
    (i : ℕ) (d : Destroy) (s : System)
    → s.exited ≡ false
    → get_elem? s.tasks i ≡ some (destroying d (by_pause top))
    → advance woken (destroying d (by_pause top)) s.engine ≡ some (released_by s.engine)
    → HasPaused i (round (runs i woken) s)
unfolding needs_lock
last_wake i d s up at moved =
    subst (HasPaused i) (sym (move_round i (destroying d (by_pause top)) _ s up at refl moved))
      (released-HasPaused i d s.engine s at)

rested : (i : ℕ) (s : System) → HasPaused i s → HasPaused i (round (runs i woken) s)
rested i s v = subst (HasPaused i) (sym (rest_round i s v.done)) v

-- The process list is read when the aborts are over.
reap_completes :
    (i : ℕ) (ps : List ℕ) (s : System)
    → s.exited ≡ false
    → get_elem? s.tasks i ≡ some (destroying (aborting []) (by_pause top))
    → s.engine.pending_resume ≡ false
    → s.engine.child_pids ≡ ps
    → HasPaused i (schedule (wakes i 2) s)
unfolding schedule
reap_completes i [] s up at quiet pids =
    rested i (round (runs i woken) s)
      (last_wake i (aborting []) s up at (unfold advance in ground arith))
reap_completes i (p ∷ ps) s up at quiet pids =
    let c : Task = destroying (aborting []) (by_pause top) in
    let m : Move = record {
      engine = record (s.engine) { inflight_request_ids = []; handle = none };
      task = destroying (reaping (p ∷ ps)) (by_pause top);
      spawned = [];
    } in
    let step : round (runs i woken) s ≡ settle i c m s =
      move_round i c m s up at refl (unfold advance in ground arith) in
    subst (λ t. HasPaused i (round (runs i woken) t)) (sym step)
      (last_wake i (reaping (p ∷ ps)) (settle i c m s) (unfold settle has_exited in refl)
        (unfold settle in get_elem?-settled s.tasks i _ _ at)
        (unfold settle advance in ground arith))

-- `_destroy_engine` of a pause, with the requests `rs` left to abort.
unload_completes :
    (i : ℕ) (rs : List ℕ) (s : System)
    → s.exited ≡ false
    → get_elem? s.tasks i ≡ some (destroying (aborting rs) (by_pause top))
    → s.engine.pending_resume ≡ false
    → HasPaused i (schedule (wakes i (suc (suc (length rs)))) s)
unfolding schedule
unload_completes i [] s up at quiet = reap_completes i s.engine.child_pids s up at quiet refl
unload_completes i (r ∷ rs) s up at quiet =
    let m : Move = record {
      engine = s.engine;
      task = destroying (aborting rs) (by_pause top);
      spawned = [];
    } in
    let next = settle i (destroying (aborting (r ∷ rs)) (by_pause top)) m s in
    let step : round (runs i woken) s ≡ next =
      move_round i (destroying (aborting (r ∷ rs)) (by_pause top)) m s up at refl
        (unfold advance in refl) in
    subst (λ t. HasPaused i (schedule (wakes i (suc (suc (length rs)))) t)) (sym step)
      (unload_completes i rs next (unfold settle has_exited in refl)
        (unfold settle in get_elem?-settled s.tasks i _ _ at) (unfold settle in quiet))

-- The first two sections of an immediate pause: it takes over, and begins to destroy the engine.
abbrev entered : ℕ → System → System
entered i s =
    settle i (pause_wait immediate top)
      (record {
        engine = record (s.engine) { state = unloading };
        task = pause_unload_wait top;
        spawned = [];
      })
      s

abbrev begun : ℕ → System → System
begun i s =
    settle i (pause_unload_wait top)
      (record {
        engine = s.engine;
        task = destroying (aborting s.engine.inflight_request_ids) (by_pause top);
        spawned = [];
      })
      s

begins :
    (e : VllmEngine)
    → is_some e.handle ≡ true
    → advance woken (pause_unload_wait top) e
      ≡ some (record {
        engine = e;
        task = destroying (aborting e.inflight_request_ids) (by_pause top);
        spawned = [];
      })
unfolding advance
begins e built = elim (Option-cases e.handle) [
  | inl gone ↦ absurd (ground arith)
  | inr (h, e) ↦ ground arith
]

-- In a timely environment, when a running engine's lock is free and an immediate pause is called: the
-- pause's own wake-ups, four and one more for each request in flight, bring it to its end, whatever else
-- is in the loop. The state is then PAUSED, the vLLM engine object is gone, none of its subprocesses is
-- recorded, the set of in-flight request ids is empty, and the lock is free.
pub pause_completes :
    (device_ids : Option (List ℕ)) {s : System} (i : ℕ)
    → Reach timely (init device_ids) s
    → s.exited ≡ false
    → s.lock ≡ none
    → s.engine.state ≡ running
    → get_elem? s.tasks i ≡ some (pause_wait immediate top)
    → HasPaused i
        (schedule (wakes i (suc (suc (suc (suc (length s.engine.inflight_request_ids)))))) s)
unfolding schedule
pause_completes device_ids {s} i r up free awake at =
    subst (λ t. HasPaused i (schedule (wakes i (suc (suc (suc n)))) t)) (sym first)
      (subst (λ t. HasPaused i (schedule (wakes i (suc (suc n))) t)) (sym second)
        (unload_completes i s.engine.inflight_request_ids (begun i (entered i s))
          (unfold settle has_exited in refl)
          (unfold settle in
            get_elem?-settled (set s.tasks i (pause_unload_wait top) ++ []) i _ _ at_unload)
          (unfold settle in quiet)))
  where
    n : ℕ
    n = length s.engine.inflight_request_ids

    built : is_some s.engine.handle ≡ true
    built = (Reach-IsCored device_ids r).cored.serving awake

    quiet : s.engine.pending_resume ≡ false
    quiet = ground (arith, (Reach-IsSafe device_ids r).flagged.resume_flag)

    at_unload :
        get_elem? (set s.tasks i (pause_unload_wait top) ++ []) i ≡ some (pause_unload_wait top)
    at_unload = get_elem?-settled s.tasks i (pause_unload_wait top) [] at

    first : round (runs i woken) s ≡ entered i s
    first =
        move_round i (pause_wait immediate top) _ s up at (unfold needs_lock in ground arith)
          (unfold advance in ground arith)

    second : round (runs i woken) (entered i s) ≡ begun i (entered i s)
    second =
        move_round i (pause_unload_wait top) _ (entered i s) (unfold settle has_exited in refl)
          (unfold settle in at_unload) (unfold needs_lock settle relock holds_lock in ground arith)
          (unfold settle in begins (record (s.engine) { state = unloading }) built)
