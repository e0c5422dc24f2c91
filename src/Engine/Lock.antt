-- ===== src/Engine/Lock.antt =====
-- `_transition_lock` of src/py-inference/src/inference/engine.py: who holds it.
use openmodel.Base.{
  bit, ◌≡◌, refl, ℕ, ◌+◌, ◌≤◌, List, Option, arith, total, le-total, false, is_some, ◌&&◌,
}
use openmodel.Engine.State.{VllmEngine}
use openmodel.Engine.Moves.{Task, Outcome, Move}
use openmodel.Engine.Tasks.{advance}
use openmodel.Engine.System.{
  System, Reach, Rule, anything, init, settle, spawn, relock, needs_lock, holds_lock, IsCall,
  calls_start, calls_pause, calls_resume, calls_stop, calls_switch, calls_generate,
}
use openmodel.Engine.Rules.{
  Yields, Yields-map, OnCall, OnRun, Reach-keeps, total-spawn, total-settle,
}

abbrev pub holding : Task → ℕ
holding (Task.destroying d u) = 1
holding _ = 0

abbrev Passes : Task → Move → Type 0
Passes t m = (holding m.task ≤ holding t + bit (needs_lock t)) × (total holding m.spawned ≡ 0)

advance-Passes : (o : Outcome) (t : Task) (e : VllmEngine) → Yields (Passes t) (advance o t e)
unfolding advance needs_lock
advance-Passes o (Task.pause_wait u k) e = ground arith
advance-Passes o _ e = ground arith

-- As many tasks hold the lock as the lock says: one or none.
abbrev pub IsExclusive : System → Type 0
IsExclusive s = total holding s.tasks ≡ bit (is_some s.lock)

pub holding-call : {c : Task} → IsCall c → holding c ≡ 0
holding-call calls_start = refl
holding-call calls_pause = refl
holding-call calls_resume = refl
holding-call calls_stop = refl
holding-call calls_switch = refl
holding-call calls_generate = refl

pub spawn-IsExclusive : (rule : Rule) → OnCall rule IsExclusive
unfolding spawn
spawn-IsExclusive rule s c k v = omega (arith, total-spawn holding s c, holding-call k)

holding_lem : (t : Task) → holding t ≡ bit (holds_lock t)
unfolding holds_lock
holding_lem (Task.destroying d u) = refl
holding_lem _ = refl

relock_lem :
    (i : ℕ) (t t' : Task) (l : Option ℕ) (n : ℕ)
    → n ≡ bit (is_some l)
    → holding t ≤ n
    → (needs_lock t && is_some l) ≡ false
    → holding t' ≤ holding t + bit (needs_lock t)
    → bit (is_some (relock i t t' l)) + holding t ≡ n + holding t'
unfolding relock
relock_lem i t t' l n e b free p = ground (arith, holding_lem t, holding_lem t')

pub settle-IsExclusive : (rule : Rule) → OnRun rule IsExclusive
unfolding settle
settle-IsExclusive rule s i o c at ok free v =
    Yields-map {Q = λ m. IsExclusive (settle i c m s)} _
      (λ m p. omega (
        arith,
        total-settle holding s i c m at,
        relock_lem i c m.task s.lock (total holding s.tasks) v (le-total holding s.tasks i at) free
            p.0,
        p.1,
      ))
      (advance-Passes o c s.engine)

-- In every state that can be reached, the tasks inside a section of the transition lock are one
-- while the lock is held and none while it is free.
pub lock_exclusive :
    (device_ids : Option (List ℕ)) {s : System}
    → Reach anything (init device_ids) s
    → total holding s.tasks ≡ bit (is_some s.lock)
unfolding init
lock_exclusive device_ids r =
    Reach-keeps anything IsExclusive (spawn-IsExclusive anything) (settle-IsExclusive anything) r
      refl
