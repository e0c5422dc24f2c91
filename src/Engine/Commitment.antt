-- ===== src/Engine/Commitment.antt =====
-- src/py-inference/src/inference/engine.py: what holds of the engine from the first section of a
-- `pause` on, while nothing wakes the engine up.
use openmodel.Base.{
  bit, ◌≡◌, ◌≢◌, ◌⊎◌, ℕ, ◌+◌, ◌≤◌, arith, total, Bool, true, false, is_some, ◌&&◌, not,
}
use openmodel.Engine.State.{VllmEngine, YieldUrgency, immediate, running, dead, loading, starting}
use openmodel.Engine.Moves.{Task, Outcome, Move, by_pause, by_reload, by_start, by_stop, by_recover}
use openmodel.Engine.Tasks.{advance}
use openmodel.Engine.System.{Rule}
use openmodel.Engine.Rules.{Yields}
use openmodel.Engine.Phases.{
  Phase, unloads, loads, starts, stops, in_phase, acting, reaping_dead, is_dead, timely,
}
use openmodel.Engine.Flags.{unloading_again}

-- The sections that bring an engine up: of `resume`, `start` and the recovery.
abbrev pub wakes_up : Task → Bool
wakes_up (Task.resume_wait k) = true
wakes_up (Task.start_wait path) = true
wakes_up Task.recover_wait = true
wakes_up _ = false

abbrev pub is_core_death : Outcome → Bool
is_core_death Outcome.core_death = true
is_core_death _ = false

-- A timely environment in which no such section gets its turn and no core dies.
abbrev pub yielding : Rule
yielding o t state = timely o t state && (not (wakes_up t) && not (is_core_death o))

-- 1 for a pause that drains the requests.
abbrev pub draining : Task → ℕ
draining (Task.pause_draining k) = 1
draining (Task.pause_drained_wait k) = 1
draining _ = 0

-- 1 for a task that is about to end a load.
abbrev pub ends_load : Task → ℕ
ends_load (Task.reload_done_wait k) = 1
ends_load Task.start_done_wait = 1
ends_load _ = 0

-- The engine against the numbers of pauses that drain and of tasks that unload a fresh load.
pub record Committed (u : YieldUrgency) (d q : ℕ) (e : VllmEngine) : Type 0 where
  pub alive : e.state ≢ dead
  pub not_resuming : e.pending_resume ≡ false
  pub noted :
      (e.state ≡ loading) ⊎ (e.state ≡ starting) → (is_some e.pending_pause ≡ true) ⊎ (1 ≤ q)
  pub drained : e.state ≡ running → 1 ≤ d
  pub at_once : u ≡ immediate → e.state ≢ running

abbrev pub Commits : YieldUrgency → ℕ → ℕ → Task → Move → Type 0
Commits u d q t m =
    ((d' q' : ℕ)
      → d' + draining t ≡ d + draining m.task
      → q' + unloading_again t ≡ q + unloading_again m.task
      → Committed u d' q' m.engine)
    × (total draining m.spawned ≡ 0)
    × (total unloading_again m.spawned ≡ 0)

pub advance-Commits :
    (u : YieldUrgency) (d q : ℕ) (o : Outcome) (t : Task) (e : VllmEngine)
    → yielding o t e.state ≡ true
    → ((p : Phase) → acting p t ≤ bit (in_phase p e.state))
    → reaping_dead t ≤ bit (is_dead e.state)
    → draining t ≤ d
    → unloading_again t ≤ q
    → q + ends_load t ≤ 1
    → Committed u d q e
    → Yields (Commits u d q t) (advance o t e)
unfolding advance
advance-Commits u d q o (Task.pause_wait w k) e ok own reap dt qt few v = ground arith
advance-Commits u d q o (Task.destroying x (by_pause k)) e ok own reap dt qt few v =
    ground (arith, own unloads)
advance-Commits u d q o (Task.destroying x (by_reload k)) e ok own reap dt qt few v =
    ground (arith, own loads)
advance-Commits u d q o (Task.destroying x by_start) e ok own reap dt qt few v =
    ground (arith, own starts)
advance-Commits u d q o (Task.destroying x by_stop) e ok own reap dt qt few v =
    ground (arith, own stops)
advance-Commits u d q o (Task.destroying x by_recover) e ok own reap dt qt few v = ground arith
advance-Commits u d q o _ e ok own reap dt qt few v =
    ground (arith, own unloads, own loads, own starts, own stops)
