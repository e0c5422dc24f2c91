-- ===== src/Engine/Yield.antt =====
-- src/py-inference/src/inference/engine.py: a pause, while nothing wakes the engine up.
use openmodel.Base.{
  bit, ◌≡◌, ◌≢◌, refl, sym, subst, ℕ, ◌+◌, ◌≤◌, List, [], Option, none, some, arith, total,
  le-total, total_mono, total-add, true, false, get_elem?,
}
use openmodel.Engine.State.{VllmEngine, YieldUrgency, immediate, running, dead}
use openmodel.Engine.Moves.{Task, Move, woken, pause_wait}
use openmodel.Engine.Tasks.{advance}
use openmodel.Engine.System.{
  System, Reach, run, init, settle, spawn, exec_task, IsCall, calls_start, calls_pause,
  calls_resume, calls_stop, calls_switch, calls_generate,
}
use openmodel.Engine.Rules.{
  Yields, Yields-map, Yields-both, yielded, exec_task-Ran, Ran, OnCall, OnRun, Reach-keeps,
  total-spawn, total-settle,
}
use openmodel.Engine.Phases.{
  Phase, unloads, loads, starts, stops, in_phase, acting, reaping_dead, is_dead, timely,
}
use openmodel.Engine.Release.{is_resting}
use openmodel.Engine.Flags.{unloading_again}
use openmodel.Engine.Safety.{IsSafe, spawn-IsSafe, settle-IsSafe, Step-IsSafe, Reach-IsSafe}
use openmodel.Engine.Commitment.{yielding, draining, ends_load, Committed, advance-Commits}

record IsCommitted (u : YieldUrgency) (s : System) : Type 0 where
  safe : IsSafe s
  committed : Committed u (total draining s.tasks) (total unloading_again s.tasks) s.engine

quiet-call : {c : Task} → IsCall c → (draining c ≡ 0) × (unloading_again c ≡ 0)
quiet-call calls_start = (refl, refl)
quiet-call calls_pause = (refl, refl)
quiet-call calls_resume = (refl, refl)
quiet-call calls_stop = (refl, refl)
quiet-call calls_switch = (refl, refl)
quiet-call calls_generate = (refl, refl)

Committed-eq :
    (u : YieldUrgency) {d q d' q' : ℕ} (e : VllmEngine)
    → d' ≡ d
    → q' ≡ q
    → Committed u d q e
    → Committed u d' q' e
Committed-eq u e hd hq v = rw (hd, hq) v

-- Of the tasks that own a load, one at most unloads it again or ends it.
end_of_load : (t : Task) → unloading_again t + ends_load t ≤ acting loads t + acting starts t
end_of_load t = ground arith

ends_alone : (s : System) → IsSafe s → total unloading_again s.tasks + total ends_load s.tasks ≤ 1
ends_alone s v = ground (
  arith,
  total-add unloading_again ends_load s.tasks,
  total_mono (λ t. unloading_again t + ends_load t) (λ t. acting loads t + acting starts t)
      end_of_load s.tasks,
  total-add (acting loads) (acting starts) s.tasks,
  v.owned.owners loads,
  v.owned.owners starts,
)

module _ (u : YieldUrgency) where
  spawn-IsCommitted : OnCall yielding (IsCommitted u)
  unfolding spawn
  spawn-IsCommitted s c k v = record {
    safe = spawn-IsSafe s c k v.safe;
    committed =
        Committed-eq u s.engine (omega (arith, total-spawn draining s c, quiet-call k))
          (omega (arith, total-spawn unloading_again s c, quiet-call k)) v.committed;
  }

  settle-IsCommitted : OnRun yielding (IsCommitted u)
  unfolding settle
  settle-IsCommitted s i o c at ok free v =
      Yields-map {Q = λ m. IsCommitted u (settle i c m s)} _
        (λ m h. record {
          safe = h.0;
          committed =
              (h.1).0 _ _ (omega (arith, total-settle draining s i c m at, h.1))
                (omega (arith, total-settle unloading_again s i c m at, h.1));
        })
        (Yields-both _ _ _ (settle-IsSafe s i o c at (ground arith) free v.safe) (
          advance-Commits u _ _ o c s.engine ok own reap (le-total draining s.tasks i at)
            (le-total unloading_again s.tasks i at)
            (omega (arith, le-total ends_load s.tasks i at, ends_alone s v.safe)) v.committed))
    where
      own : (q : Phase) → acting q c ≤ bit (in_phase q s.engine.state)
      own q = omega (arith, le-total (acting q) s.tasks i at, v.safe.owned.owners q)

      reap : reaping_dead c ≤ bit (is_dead s.engine.state)
      reap = omega (arith, le-total reaping_dead s.tasks i at, v.safe.owned.reaper)

-- What the first section of a pause leaves.
abbrev Enters : YieldUrgency → Move → Type 0
Enters u m =
    ((d q : ℕ) → draining m.task ≤ d → Committed u d q m.engine) × (total draining m.spawned ≡ 0)

advance-Enters :
    (u : YieldUrgency) (k : _) (e : VllmEngine)
    → e.state ≢ dead
    → e.pending_resume ≡ false
    → Yields (Enters u) (advance woken (pause_wait u k) e)
unfolding advance
advance-Enters u k e alive quiet = ground arith

-- 1 for a task that is in the middle of a pause, a load, a start or a stop.
abbrev pub under_way : Task → ℕ
under_way t =
    draining t + (acting unloads t + (acting loads t + (acting starts t + acting stops t)))

at_rest :
    (u : YieldUrgency) (s : System)
    → IsCommitted u s
    → total under_way s.tasks ≡ 0
    → is_resting s.engine.state ≡ true
at_rest u s v none_left = ground (
  arith,
  total-add draining (λ t. acting unloads t + (acting loads t + (acting starts t + acting stops t)))
      s.tasks,
  total-add (acting unloads) (λ t. acting loads t + (acting starts t + acting stops t)) s.tasks,
  total-add (acting loads) (λ t. acting starts t + acting stops t) s.tasks,
  total-add (acting starts) (acting stops) s.tasks,
  v.safe.owned.owners unloads,
  v.safe.owned.owners loads,
  v.safe.owned.owners starts,
  v.safe.owned.owners stops,
  v.committed.alive,
  v.committed.drained,
)

-- A timely environment, with the engine not dead and no resume noted while it unloads. Once the first
-- section of a pause has run, then for as long as no section of a resume, a start or a recovery gets
-- its turn and no core dies, whatever else is called: after an immediate pause the engine never runs;
-- and whenever no pause, load, start or stop is under way, the engine rests, with no vLLM engine object
-- and no subprocess left on the GPU. That holds too where the pause found a load under way.
pub yield_lands :
    (device_ids : Option (List ℕ)) {s s' t : System} {u : YieldUrgency} (i : ℕ) {k : _}
    → Reach timely (init device_ids) s
    → get_elem? s.tasks i ≡ some (pause_wait u k)
    → s.engine.state ≢ dead
    → s.engine.pending_resume ≡ false
    → exec_task i woken (pause_wait u k) s ≡ some s'
    → Reach yielding s' t
    → (u ≡ immediate → t.engine.state ≢ running)
      × (total under_way t.tasks ≡ 0
          → (is_resting t.engine.state ≡ true)
            × (t.engine.handle ≡ none)
            × (t.engine.child_pids ≡ []))
yield_lands device_ids {s} {s'} {t} {u} i {k} r at alive quiet ran later =
    let ended =
      Reach-keeps yielding (IsCommitted u) (spawn-IsCommitted u) (settle-IsCommitted u) later
        begun in
    (
      ended.committed.at_once,
      λ none_left.
          let rest = at_rest u t ended none_left in
          let (gone, reaped) = ended.safe.released.resting rest in (rest, gone, reaped),
    )
  where
    moved : Ran i woken (pause_wait u k) s s'
    moved = exec_task-Ran i woken (pause_wait u k) s s' ran

    safe : IsSafe s'
    safe = Step-IsSafe (run i woken (pause_wait u k) at refl ran) (Reach-IsSafe device_ids r)

    entered : Enters u moved.move
    entered = yielded (Enters u) _ moved.move (advance-Enters u k s.engine alive quiet) moved.moved

    begun : IsCommitted u s'
    begun = record {
      safe = safe;
      committed =
          subst (λ x. Committed u (total draining x.tasks) (total unloading_again x.tasks) x.engine)
            (sym moved.after)
            (unfold settle in
              entered.0 (total draining (settle i (pause_wait u k) moved.move s).tasks)
                (total unloading_again (settle i (pause_wait u k) moved.move s).tasks)
                (omega (arith, total-settle draining s i (pause_wait u k) moved.move at)));
    }
