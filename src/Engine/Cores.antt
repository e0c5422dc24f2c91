-- ===== src/Engine/Cores.antt =====
-- src/py-inference/src/inference/engine.py: when `_engine` is there.
use openmodel.Base.{
  bit, ◌≡◌, refl, ℕ, ◌+◌, ◌≤◌, List, Option, arith, total, le-total, total_mono, total-add, subst,
  true, is_some,
}
use openmodel.Engine.State.{VllmEngine, running}
use openmodel.Engine.Moves.{Task, Outcome, Move, by_pause, by_reload, by_start, by_stop, by_recover}
use openmodel.Engine.Tasks.{advance}
use openmodel.Engine.System.{
  System, Reach, here, init, settle, spawn, IsCall, calls_start, calls_pause, calls_resume,
  calls_stop, calls_switch, calls_generate,
}
use openmodel.Engine.Rules.{
  Yields, Yields-map, Yields-both, OnCall, OnRun, Reach-keeps, total-spawn, total-settle,
}
use openmodel.Engine.Phases.{
  Phase, unloads, loads, starts, stops, in_phase, acting, reaping_dead, is_dead, timely,
}
use openmodel.Engine.Safety.{IsSafe, spawn-IsSafe, settle-IsSafe, Reach-IsSafe}
use openmodel.Engine.Commitment.{ends_load}

-- 1 for a task that may take the core away from a load.
abbrev unmakes : Task → ℕ
unmakes (Task.destroying d (by_reload k)) = 1
unmakes (Task.destroying d by_start) = 1
unmakes (Task.reload_create n k) = 1
unmakes _ = 0

-- The engine against the number of tasks that are about to end a load.
pub record HasCore (n : ℕ) (e : VllmEngine) : Type 0 where
  pub loaded : 1 ≤ n → is_some e.handle ≡ true
  pub serving : e.state ≡ running → is_some e.handle ≡ true

-- What an advance keeps.
abbrev Makes : ℕ → Task → Move → Type 0
Makes n t m =
    ((n' : ℕ) → n' + ends_load t ≡ n + ends_load m.task → HasCore n' m.engine)
    × (total ends_load m.spawned ≡ 0)

advance-Makes :
    (n : ℕ) (o : Outcome) (t : Task) (e : VllmEngine)
    → timely o t e.state ≡ true
    → ((p : Phase) → acting p t ≤ bit (in_phase p e.state))
    → reaping_dead t ≤ bit (is_dead e.state)
    → ends_load t ≤ n
    → n ≤ bit (in_phase loads e.state) + bit (in_phase starts e.state)
    → n + unmakes t ≤ 1
    → HasCore n e
    → Yields (Makes n t) (advance o t e)
unfolding advance
advance-Makes n o (Task.pause_wait u k) e ok own reap nt busy few v = ground arith
advance-Makes n o (Task.destroying x (by_pause k)) e ok own reap nt busy few v =
    ground (arith, own unloads)
advance-Makes n o (Task.destroying x (by_reload k)) e ok own reap nt busy few v =
    ground (arith, own loads)
advance-Makes n o (Task.destroying x by_start) e ok own reap nt busy few v =
    ground (arith, own starts)
advance-Makes n o (Task.destroying x by_stop) e ok own reap nt busy few v =
    ground (arith, own stops)
advance-Makes n o (Task.destroying x by_recover) e ok own reap nt busy few v = ground arith
advance-Makes n o _ e ok own reap nt busy few v =
    ground (arith, own unloads, own loads, own starts, own stops)

-- A task that ends a load or unmakes its core owns the load.
core_owner : (t : Task) → ends_load t + unmakes t ≤ acting loads t + acting starts t
core_owner t = ground arith

core_owners :
    (s : System)
    → IsSafe s
    → total ends_load s.tasks + total unmakes s.tasks
      ≤ bit (in_phase loads s.engine.state) + bit (in_phase starts s.engine.state)
core_owners s v = ground (
  arith,
  total-add ends_load unmakes s.tasks,
  total_mono (λ t. ends_load t + unmakes t) (λ t. acting loads t + acting starts t) core_owner
      s.tasks,
  total-add (acting loads) (acting starts) s.tasks,
  v.owned.owners loads,
  v.owned.owners starts,
)

load-or-start : (e : VllmEngine) → bit (in_phase loads e.state) + bit (in_phase starts e.state) ≤ 1
load-or-start e = ground arith

pub record IsCored (s : System) : Type 0 where
  pub safe : IsSafe s
  pub cored : HasCore (total ends_load s.tasks) s.engine

ends_no_load : {c : Task} → IsCall c → ends_load c ≡ 0
ends_no_load calls_start = refl
ends_no_load calls_pause = refl
ends_no_load calls_resume = refl
ends_no_load calls_stop = refl
ends_no_load calls_switch = refl
ends_no_load calls_generate = refl

spawn-IsCored : OnCall timely IsCored
unfolding spawn
spawn-IsCored s c k v = record {
  safe = spawn-IsSafe s c k v.safe;
  cored =
      subst (λ n. HasCore n s.engine) (omega (arith, total-spawn ends_load s c, ends_no_load k))
        v.cored;
}

settle-IsCored : OnRun timely IsCored
unfolding settle
settle-IsCored s i o c at ok free v =
    Yields-map {Q = λ m. IsCored (settle i c m s)} _
      (λ m h. record {
        safe = h.0;
        cored = (h.1).0 _ (omega (arith, total-settle ends_load s i c m at, h.1));
      })
      (Yields-both _ _ _ (settle-IsSafe s i o c at ok free v.safe) (
        advance-Makes _ o c s.engine ok own reap (le-total ends_load s.tasks i at)
          (omega (arith, core_owners s v.safe))
          (omega
            (arith, core_owners s v.safe, load-or-start s.engine, le-total unmakes s.tasks i at))
          v.cored))
  where
    own : (q : Phase) → acting q c ≤ bit (in_phase q s.engine.state)
    own q = omega (arith, le-total (acting q) s.tasks i at, v.safe.owned.owners q)

    reap : reaping_dead c ≤ bit (is_dead s.engine.state)
    reap = omega (arith, le-total reaping_dead s.tasks i at, v.safe.owned.reaper)

pub Reach-IsCored :
    (device_ids : Option (List ℕ)) {s : System} → Reach timely (init device_ids) s → IsCored s
unfolding init
Reach-IsCored device_ids r =
    Reach-keeps timely IsCored spawn-IsCored settle-IsCored r
      (record { safe = Reach-IsSafe device_ids here; cored = ground arith })
