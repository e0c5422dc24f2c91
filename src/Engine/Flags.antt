-- ===== src/Engine/Flags.antt =====
-- src/py-inference/src/inference/engine.py: the flags `_pending_pause` and `_pending_resume`, by
-- which a pause during a load and a resume during an unload are remembered.
use openmodel.Base.{bit, ◌≡◌, ◌⊎◌, ℕ, ◌+◌, ◌≤◌, arith, total, true, false, is_some}
use openmodel.Engine.State.{VllmEngine, loading, starting, unloading}
use openmodel.Engine.Moves.{Task, Outcome, Move, by_pause, by_reload, by_start, by_stop, by_recover}
use openmodel.Engine.Tasks.{advance}
use openmodel.Engine.System.{needs_lock}
use openmodel.Engine.Rules.{Yields}
use openmodel.Engine.Phases.{
  Phase, unloads, loads, starts, stops, in_phase, acting, reaping_dead, is_dead, timely,
}

-- 1 for a task that unloads a freshly loaded engine because of a pending pause.
abbrev pub unloading_again : Task → ℕ
unloading_again (Task.destroying d (by_reload k)) = 1
unloading_again (Task.destroying d by_start) = 1
unloading_again _ = 0

-- The flags against the number of such tasks.
pub record Flagged (q : ℕ) (e : VllmEngine) : Type 0 where
  pub pause_flag : is_some e.pending_pause ≡ true → (e.state ≡ loading) ⊎ (e.state ≡ starting)
  pub taken_up : 1 ≤ q → is_some e.pending_pause ≡ false
  pub resume_flag : e.pending_resume ≡ true → e.state ≡ unloading

abbrev pub Flags : ℕ → Task → Move → Type 0
Flags q t m =
    ((q' : ℕ) → q' + unloading_again t ≡ q + unloading_again m.task → Flagged q' m.engine)
    × (total unloading_again m.spawned ≡ 0)

pub advance-Flags :
    (q : ℕ) (o : Outcome) (t : Task) (e : VllmEngine)
    → timely o t e.state ≡ true
    → ((p : Phase) → acting p t ≤ bit (in_phase p e.state))
    → reaping_dead t ≤ bit (is_dead e.state)
    → unloading_again t ≤ q
    → q + bit (needs_lock t) ≤ 1
    → Flagged q e
    → Yields (Flags q t) (advance o t e)
unfolding advance needs_lock
advance-Flags q o (Task.pause_wait u k) e ok own dead qt free v = ground arith
advance-Flags q o (Task.destroying d (by_pause k)) e ok own dead qt free v =
    ground (arith, own unloads)
advance-Flags q o (Task.destroying d (by_reload k)) e ok own dead qt free v =
    ground (arith, own loads)
advance-Flags q o (Task.destroying d by_start) e ok own dead qt free v = ground (arith, own starts)
advance-Flags q o (Task.destroying d by_stop) e ok own dead qt free v = ground (arith, own stops)
advance-Flags q o (Task.destroying d by_recover) e ok own dead qt free v = ground arith
advance-Flags q o _ e ok own dead qt free v =
    ground (arith, own unloads, own loads, own starts, own stops)
