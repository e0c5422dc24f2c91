-- ===== src/Engine/Release.antt =====
-- src/py-inference/src/inference/engine.py: when the GPU is given back. The engine is released when
-- `_engine` is None and none of its subprocesses is left.
use openmodel.Base.{bit, ◌≡◌, ℕ, ◌+◌, ◌≤◌, [], none, arith, total, Bool, true, false}
use openmodel.Engine.State.{VllmEngine, EngineState}
use openmodel.Engine.Sections.{reaping, aborting}
use openmodel.Engine.Moves.{Task, Outcome, Move, by_pause, by_reload, by_start, by_stop, by_recover}
use openmodel.Engine.Tasks.{advance}
use openmodel.Engine.System.{needs_lock}
use openmodel.Engine.Rules.{Yields}
use openmodel.Engine.Phases.{
  Phase, unloads, loads, starts, stops, in_phase, acting, reaping_dead, is_dead, timely,
}

-- 1 for a task that has yet to build the engine.
abbrev pub before_load : Task → ℕ
before_load (Task.reload_vram n k) = 1
before_load (Task.reload_create n k) = 1
before_load Task.reload_failed_wait = 1
before_load Task.start_create = 1
before_load Task.start_failed_wait = 1
before_load _ = 0

-- 1 for a task that has shut the engine down and waits for its processes.
abbrev pub reaping_now : Task → ℕ
reaping_now (Task.destroying (reaping ps) u) = 1
reaping_now _ = 0

abbrev pub is_resting : EngineState → Bool
is_resting EngineState.paused = true
is_resting EngineState.stopped = true
is_resting _ = false

-- The engine against the number of tasks that have yet to build it and that reap its processes.
pub record Released (p r : ℕ) (e : VllmEngine) : Type 0 where
  pub unbuilt : 1 ≤ p → (e.handle ≡ none) × (e.child_pids ≡ [])
  pub shut : 1 ≤ r → e.handle ≡ none
  pub clean : r ≡ 0 → e.handle ≡ none → e.child_pids ≡ []
  pub resting : is_resting e.state ≡ true → (e.handle ≡ none) × (e.child_pids ≡ [])

abbrev pub Releases : ℕ → ℕ → Task → Move → Type 0
Releases p r t m =
    ((p' r' : ℕ)
      → p' + before_load t ≡ p + before_load m.task
      → r' + reaping_now t ≡ r + reaping_now m.task
      → Released p' r' m.engine)
    × (total before_load m.spawned ≡ 0)
    × (total reaping_now m.spawned ≡ 0)

pub advance-Releases :
    (p r : ℕ) (o : Outcome) (t : Task) (e : VllmEngine)
    → timely o t e.state ≡ true
    → ((q : Phase) → acting q t ≤ bit (in_phase q e.state))
    → reaping_dead t ≤ bit (is_dead e.state)
    → before_load t ≤ p
    → reaping_now t ≤ r
    → p + r ≤ 1
    → r + bit (needs_lock t) ≤ 1
    → Released p r e
    → Yields (Releases p r t) (advance o t e)
unfolding advance needs_lock
advance-Releases p r o (Task.pause_wait u k) e ok own dead pt rt pr free v = ground arith
advance-Releases p r o (Task.destroying (reaping ps) (by_pause k)) e ok own dead pt rt pr free v =
    ground (arith, own unloads)
advance-Releases p r o (Task.destroying (aborting ps) (by_pause k)) e ok own dead pt rt pr free v =
    ground (arith, own unloads)
advance-Releases p r o (Task.destroying (reaping ps) (by_reload k)) e ok own dead pt rt pr free v =
    ground (arith, own loads)
advance-Releases p r o (Task.destroying (aborting ps) (by_reload k)) e ok own dead pt rt pr free v =
    ground (arith, own loads)
advance-Releases p r o (Task.destroying (reaping ps) by_start) e ok own dead pt rt pr free v =
    ground (arith, own starts)
advance-Releases p r o (Task.destroying (aborting ps) by_start) e ok own dead pt rt pr free v =
    ground (arith, own starts)
advance-Releases p r o (Task.destroying (reaping ps) by_stop) e ok own dead pt rt pr free v =
    ground (arith, own stops)
advance-Releases p r o (Task.destroying (aborting ps) by_stop) e ok own dead pt rt pr free v =
    ground (arith, own stops)
advance-Releases p r o (Task.destroying (reaping ps) by_recover) e ok own dead pt rt pr free v =
    ground arith
advance-Releases p r o (Task.destroying (aborting ps) by_recover) e ok own dead pt rt pr free v =
    ground arith
advance-Releases p r o _ e ok own dead pt rt pr free v =
    ground (arith, own unloads, own loads, own starts)
