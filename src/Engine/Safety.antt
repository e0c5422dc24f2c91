-- ===== src/Engine/Safety.antt =====
-- src/py-inference/src/inference/engine.py: what holds of the engine's memory and flags in every
-- state that a timely environment can bring about.
use openmodel.Base.{
  bit, ◌≡◌, refl, subst, ℕ, ◌+◌, ◌≤◌, List, Option, arith, total, le-total, total_mono, total-add,
  false, is_some, ◌&&◌,
}
use openmodel.Engine.State.{VllmEngine}
use openmodel.Engine.Sections.{reaping}
use openmodel.Engine.Moves.{Task, by_reload}
use openmodel.Engine.System.{
  System, Reach, here, Step, init, settle, spawn, needs_lock, IsCall, calls_start, calls_pause,
  calls_resume, calls_stop, calls_switch, calls_generate,
}
use openmodel.Engine.Rules.{
  Yields-map, Yields-join, OnCall, OnRun, Reach-keeps, Step-keeps, total-spawn, total-settle,
}
use openmodel.Engine.Lock.{holding, IsExclusive}
use openmodel.Engine.Phases.{
  Phase, unloads, loads, starts, stops, in_phase, acting, reaping_dead, is_dead, timely,
}
use openmodel.Engine.Owners.{IsOwned, spawn-IsOwned, settle-IsOwned, Reach-IsOwned}
use openmodel.Engine.Release.{Released, advance-Releases, before_load, reaping_now}
use openmodel.Engine.Flags.{Flagged, advance-Flags, unloading_again}

-- Every task that loads or reaps owns a transition.
owning : Task → ℕ
owning t =
    acting unloads t + (acting loads t + (acting starts t + (acting stops t + reaping_dead t)))

total-owning-le : (s : System) → IsOwned s → total owning s.tasks ≤ 1
unfolding owning
total-owning-le s v = ground (
  arith,
  total-add (acting unloads)
      (λ t. acting loads t + (acting starts t + (acting stops t + reaping_dead t))) s.tasks,
  total-add (acting loads) (λ t. acting starts t + (acting stops t + reaping_dead t)) s.tasks,
  total-add (acting starts) (λ t. acting stops t + reaping_dead t) s.tasks,
  total-add (acting stops) reaping_dead s.tasks,
  v.owners unloads,
  v.owners loads,
  v.owners starts,
  v.owners stops,
  v.reaper,
)

owning_lem : (t : Task) → before_load t + reaping_now t ≤ owning t
unfolding owning
owning_lem (Task.destroying (reaping ps) u) = ground arith
owning_lem _ = ground arith

reaping_now-le-holding : (t : Task) → reaping_now t ≤ holding t
reaping_now-le-holding (Task.destroying (reaping ps) u) = omega arith
reaping_now-le-holding _ = ground arith

unloading_again-le-holding : (t : Task) → unloading_again t ≤ holding t
unloading_again-le-holding (Task.destroying d (by_reload k)) = omega arith
unloading_again-le-holding _ = ground arith

-- A task that may take the lock finds no task that has it.
lone :
    (w : Task → ℕ)
    → ((t : Task) → w t ≤ holding t)
    → (s : System) (c : Task) → IsExclusive s
    → (needs_lock c && is_some s.lock) ≡ false
    → total w s.tasks + bit (needs_lock c) ≤ 1
lone w below s c v free = ground (arith, total_mono w holding below s.tasks)

-- The invariant.
pub record IsSafe (s : System) : Type 0 where
  pub owned : IsOwned s
  pub released : Released (total before_load s.tasks) (total reaping_now s.tasks) s.engine
  pub flagged : Flagged (total unloading_again s.tasks) s.engine

idle-call :
    {c : Task} → IsCall c → (before_load c ≡ 0) × (reaping_now c ≡ 0) × (unloading_again c ≡ 0)
idle-call calls_start = (refl, refl, refl)
idle-call calls_pause = (refl, refl, refl)
idle-call calls_resume = (refl, refl, refl)
idle-call calls_stop = (refl, refl, refl)
idle-call calls_switch = (refl, refl, refl)
idle-call calls_generate = (refl, refl, refl)

Released-eq : {p r p' r' : ℕ} (e : VllmEngine) → p' ≡ p → r' ≡ r → Released p r e → Released p' r' e
Released-eq e hp hr v = rw (hp, hr) v

pub spawn-IsSafe : OnCall timely IsSafe
unfolding spawn
spawn-IsSafe s c k v = record {
  owned = spawn-IsOwned s c k v.owned;
  released =
      Released-eq s.engine (omega (arith, total-spawn before_load s c, idle-call k))
        (omega (arith, total-spawn reaping_now s c, idle-call k)) v.released;
  flagged =
      subst (λ q. Flagged q s.engine) (omega (arith, total-spawn unloading_again s c, idle-call k))
        v.flagged;
}

pub settle-IsSafe : OnRun timely IsSafe
unfolding settle
settle-IsSafe s i o c at ok free v =
    Yields-map {Q = λ m. IsSafe (settle i c m s)} _
      (λ m h. record {
        owned = h.0;
        released =
            (h.1).0 _ _ (omega (arith, total-settle before_load s i c m at, h.1))
              (omega (arith, total-settle reaping_now s i c m at, h.1));
        flagged = (h.2).0 _ (omega (arith, total-settle unloading_again s i c m at, h.2));
      })
      (Yields-join _ _ _ _ (settle-IsOwned s i o c at ok free v.owned)
        (advance-Releases _ _ o c s.engine ok own dead (le-total before_load s.tasks i at)
          (le-total reaping_now s.tasks i at) few
          (lone reaping_now reaping_now-le-holding s c v.owned.exclusive free) v.released)
        (advance-Flags _ o c s.engine ok own dead (le-total unloading_again s.tasks i at)
          (lone unloading_again unloading_again-le-holding s c v.owned.exclusive free) v.flagged))
  where
    own : (q : Phase) → acting q c ≤ bit (in_phase q s.engine.state)
    own q = omega (arith, le-total (acting q) s.tasks i at, v.owned.owners q)

    dead : reaping_dead c ≤ bit (is_dead s.engine.state)
    dead = omega (arith, le-total reaping_dead s.tasks i at, v.owned.reaper)

    few : total before_load s.tasks + total reaping_now s.tasks ≤ 1
    few = omega (
      arith,
      total-add before_load reaping_now s.tasks,
      total_mono (λ t. before_load t + reaping_now t) owning owning_lem s.tasks,
      total-owning-le s v.owned,
    )

pub Step-IsSafe : {s t : System} → Step timely s t → IsSafe s → IsSafe t
Step-IsSafe = Step-keeps timely IsSafe spawn-IsSafe settle-IsSafe

pub Reach-IsSafe :
    (device_ids : Option (List ℕ)) {s : System} → Reach timely (init device_ids) s → IsSafe s
unfolding init
Reach-IsSafe device_ids r = Reach-keeps timely IsSafe spawn-IsSafe settle-IsSafe r (record {
  owned = Reach-IsOwned device_ids here;
  released = ground arith;
  flagged = ground arith;
})
