-- ===== src/Engine/Owners.antt =====
-- src/py-inference/src/inference/engine.py: in a timely environment every transition of the
-- engine has exactly one owner.
use openmodel.Base.{
  bit, ◌≡◌, refl, ℕ, ◌+◌, ◌≤◌, List, Option, none, some, arith, total, le-total, total_mono, true,
  false, is_some, ◌&&◌,
}
use openmodel.Engine.State.{VllmEngine}
use openmodel.Engine.Moves.{Task, Outcome, Move, by_pause, by_reload, by_start, by_stop, by_recover}
use openmodel.Engine.Tasks.{advance}
use openmodel.Engine.System.{
  System, Reach, init, settle, spawn, needs_lock, IsCall, calls_start, calls_pause, calls_resume,
  calls_stop, calls_switch, calls_generate,
}
use openmodel.Engine.Rules.{
  Yields, Yields-map, Yields-join, OnCall, OnRun, Reach-keeps, total-spawn, total-settle,
}
use openmodel.Engine.Lock.{holding, IsExclusive, spawn-IsExclusive, settle-IsExclusive}
use openmodel.Engine.Phases.{
  Phase, unloads, loads, starts, stops, in_phase, acting, reaping_dead, is_dead, timely, Hands,
  advance-Hands,
}

abbrev Reaps : ℕ → Task → Move → Type 0
Reaps n t m =
    (n + reaping_dead m.task ≤ bit (is_dead m.engine.state) + reaping_dead t)
    × (total reaping_dead m.spawned ≡ 0)

advance-Reaps :
    (n : ℕ) (o : Outcome) (t : Task) (e : VllmEngine)
    → timely o t e.state ≡ true
    → ((q : Phase) → acting q t ≤ bit (in_phase q e.state))
    → reaping_dead t ≤ n
    → n ≤ bit (is_dead e.state)
    → n + bit (needs_lock t) ≤ 1
    → Yields (Reaps n t) (advance o t e)
unfolding advance needs_lock
advance-Reaps n o (Task.destroying d (by_pause k)) e ok own m dead free =
    ground (arith, own unloads)
advance-Reaps n o (Task.destroying d (by_reload k)) e ok own m dead free = ground (arith, own loads)
advance-Reaps n o (Task.destroying d by_start) e ok own m dead free = ground (arith, own starts)
advance-Reaps n o (Task.destroying d by_stop) e ok own m dead free = ground (arith, own stops)
advance-Reaps n o (Task.destroying d by_recover) e ok own m dead free = ground arith
advance-Reaps n o _ e ok own m dead free =
    ground (arith, own unloads, own loads, own starts, own stops)

reaping_dead-le-holding : (t : Task) → reaping_dead t ≤ holding t
reaping_dead-le-holding (Task.destroying d by_recover) = omega arith
reaping_dead-le-holding _ = ground arith

-- Who owns what.
pub record IsOwned (s : System) : Type 0 where
  pub exclusive : IsExclusive s
  pub owners : (p : Phase) → total (acting p) s.tasks ≡ bit (in_phase p s.engine.state)
  pub reaper : total reaping_dead s.tasks ≤ bit (is_dead s.engine.state)

acting-call : (p : Phase) {c : Task} → IsCall c → acting p c ≡ 0
acting-call unloads calls_start = refl
acting-call p calls_start = ground arith
acting-call p calls_pause = ground arith
acting-call p calls_resume = ground arith
acting-call p calls_stop = ground arith
acting-call p calls_switch = ground arith
acting-call p calls_generate = ground arith

reaping_dead-call : {c : Task} → IsCall c → reaping_dead c ≡ 0
reaping_dead-call calls_start = refl
reaping_dead-call calls_pause = refl
reaping_dead-call calls_resume = refl
reaping_dead-call calls_stop = refl
reaping_dead-call calls_switch = refl
reaping_dead-call calls_generate = refl

pub spawn-IsOwned : OnCall timely IsOwned
unfolding spawn
spawn-IsOwned s c k v = record {
  exclusive = spawn-IsExclusive timely s c k v.exclusive;
  owners = λ p. omega (arith, total-spawn (acting p) s c, acting-call p k, v.owners p);
  reaper = omega (arith, total-spawn reaping_dead s c, reaping_dead-call k, v.reaper);
}

-- The recovery task that unloads has the lock, so a task that takes it finds none.
pub reaper_lone :
    (s : System) (c : Task)
    → IsExclusive s
    → (needs_lock c && is_some s.lock) ≡ false
    → total reaping_dead s.tasks + bit (needs_lock c) ≤ 1
reaper_lone s c v free =
    ground (arith, total_mono reaping_dead holding reaping_dead-le-holding s.tasks)

pub settle-IsOwned : OnRun timely IsOwned
unfolding settle
settle-IsOwned s i o c at ok free v =
    Yields-map {Q = λ m. IsOwned (settle i c m s)} _
      (λ m h. record {
        exclusive = h.0;
        owners = λ p. omega (arith, total-settle (acting p) s i c m at, v.owners p, h.1 p);
        reaper = omega (arith, total-settle reaping_dead s i c m at, h.2);
      })
      (Yields-join _ _ _ _ (settle-IsExclusive timely s i o c at ok free v.exclusive)
        (hands _ (λ p.
          advance-Hands p o c s.engine ok own
            (omega (arith, le-total reaping_dead s.tasks i at, v.reaper))))
        (advance-Reaps (total reaping_dead s.tasks) o c s.engine ok own
          (le-total reaping_dead s.tasks i at) v.reaper (reaper_lone s c v.exclusive free)))
  where
    own : (q : Phase) → acting q c ≤ bit (in_phase q s.engine.state)
    own q = omega (arith, le-total (acting q) s.tasks i at, v.owners q)

    hands :
        (x : Option Move)
        → ((p : Phase) → Yields (Hands p c s.engine) x)
        → Yields (λ m. (p : Phase) → Hands p c s.engine m) x
    hands none h = tt
    hands (some m) h = h

pub Reach-IsOwned :
    (device_ids : Option (List ℕ)) {s : System} → Reach timely (init device_ids) s → IsOwned s
unfolding init
Reach-IsOwned device_ids r =
    Reach-keeps timely IsOwned spawn-IsOwned settle-IsOwned r
      (record { exclusive = refl; owners = λ p. ground arith; reaper = omega arith })

-- Under a timely environment, however the tasks interleave: an engine that is unloading, loading,
-- starting or stopping has exactly one task that carries this transition out, and an engine in
-- another state has none.
pub transition_owned :
    (device_ids : Option (List ℕ)) {s : System}
    → Reach timely (init device_ids) s
    → (p : Phase) → total (acting p) s.tasks ≡ bit (in_phase p s.engine.state)
transition_owned device_ids r p = (Reach-IsOwned device_ids r).owners p
