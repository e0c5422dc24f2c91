-- ===== src/Engine/Phases.antt =====
-- Who owns a transition of the engine in src/py-inference/src/inference/engine.py: the tasks that
-- are unloading, loading, starting or stopping it, against `_state`.
use openmodel.Base.{bit, ◌≡◌, ℕ, ◌+◌, ◌≤◌, arith, total, Bool, true, false}
use openmodel.Engine.State.{VllmEngine, EngineState}
use openmodel.Engine.Moves.{Task, Outcome, Move, by_pause, by_reload, by_start, by_stop, by_recover}
use openmodel.Engine.Tasks.{advance}
use openmodel.Engine.System.{Rule}
use openmodel.Engine.Rules.{Yields}

-- The transitions that are under way between two sections of the lock.
pub data Phase : Type 0 where
  unloads loads starts stops : Phase

abbrev pub in_phase : Phase → EngineState → Bool
in_phase unloads EngineState.unloading = true
in_phase loads EngineState.loading = true
in_phase starts EngineState.starting = true
in_phase stops EngineState.stopping = true
in_phase _ _ = false

-- 1 for a task that owns a transition of the phase.
abbrev pub acting : Phase → Task → ℕ
acting unloads (Task.pause_unload_wait k) = 1
acting unloads (Task.destroying d (by_pause k)) = 1
acting loads (Task.destroying d (by_reload k)) = 1
acting loads (Task.reload_vram n k) = 1
acting loads (Task.reload_create n k) = 1
acting loads (Task.reload_done_wait k) = 1
acting loads Task.reload_failed_wait = 1
acting starts Task.start_create = 1
acting starts Task.start_done_wait = 1
acting starts Task.start_failed_wait = 1
acting starts (Task.destroying d by_start) = 1
acting stops (Task.destroying d by_stop) = 1
acting _ _ = 0

-- 1 for the recovery task that unloads a dead engine.
abbrev pub reaping_dead : Task → ℕ
reaping_dead (Task.destroying d by_recover) = 1
reaping_dead _ = 0

abbrev pub is_dead : EngineState → Bool
is_dead EngineState.dead = true
is_dead _ = false

abbrev pub in_transition : EngineState → Bool
in_transition EngineState.unloading = true
in_transition EngineState.loading = true
in_transition EngineState.starting = true
in_transition EngineState.stopping = true
in_transition _ = false

abbrev pub is_stopped : EngineState → Bool
is_stopped EngineState.stopped = true
is_stopped _ = false

-- The environment that the transitions are written for: vLLM reports a dead core while the engine
-- runs or is known to be dead, `start` is called on a stopped engine, and `stop` outside a
-- transition.
abbrev pub timely : Rule
timely Outcome.core_death t EngineState.running = true
timely Outcome.core_death t EngineState.dead = true
timely Outcome.core_death t _ = false
timely o (Task.start_wait path) state = is_stopped state
timely o Task.stop_wait EngineState.unloading = false
timely o Task.stop_wait EngineState.loading = false
timely o Task.stop_wait EngineState.starting = false
timely o Task.stop_wait EngineState.stopping = false
timely _ _ _ = true

-- One step keeps the number of a phase's owners equal to whether the engine is in that phase.
abbrev pub Hands : Phase → Task → VllmEngine → Move → Type 0
Hands p t e m =
    (bit (in_phase p m.engine.state) + acting p t ≡ bit (in_phase p e.state) + acting p m.task)
    × (total (acting p) m.spawned ≡ 0)

pub advance-Hands :
    (p : Phase) (o : Outcome) (t : Task) (e : VllmEngine)
    → timely o t e.state ≡ true
    → ((q : Phase) → acting q t ≤ bit (in_phase q e.state))
    → reaping_dead t ≤ bit (is_dead e.state)
    → Yields (Hands p t e) (advance o t e)
unfolding advance
advance-Hands p o (Task.destroying d (by_pause k)) e ok own dead = ground (arith, own unloads)
advance-Hands p o (Task.destroying d (by_reload k)) e ok own dead = ground (arith, own loads)
advance-Hands p o (Task.destroying d by_start) e ok own dead = ground (arith, own starts)
advance-Hands p o (Task.destroying d by_stop) e ok own dead = ground (arith, own stops)
advance-Hands p o (Task.destroying d by_recover) e ok own dead = ground arith
advance-Hands p o _ e ok own dead = ground (arith, own unloads, own loads, own starts, own stops)
