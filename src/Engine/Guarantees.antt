-- ===== src/Engine/Guarantees.antt =====
-- src/py-inference/src/inference/engine.py: the promises of VLLMEngine to the miner, in a timely
-- environment, whatever the order of calls, requests and wake-ups.
use openmodel.Base.{
  bit, ◌≡◌, ◌≢◌, ◌⊎◌, inl, inr, refl, ℕ, ◌+◌, ◌≤◌, List, [], Option, none, some, arith, total,
  le-total, total_mono, total-add, true, get_elem?, is_some,
}
use openmodel.Engine.State.{VllmEngine, running}
use openmodel.Engine.Moves.{Task, Outcome, Move, by_pause, by_reload, by_start, by_stop, by_recover}
use openmodel.Engine.Tasks.{advance}
use openmodel.Engine.System.{System, Reach, Step, call, run, init, spawn, settle}
use openmodel.Engine.Rules.{Yields, yielded, exec_task-Ran, total-spawn, total-settle}
use openmodel.Engine.Phases.{
  Phase, unloads, loads, starts, stops, in_phase, acting, reaping_dead, is_dead, timely,
}
use openmodel.Engine.Flags.{unloading_again}
use openmodel.Engine.Safety.{IsSafe, Reach-IsSafe}
use openmodel.Engine.Release.{before_load, is_resting}

-- In a timely environment a paused or stopped engine has released the GPU: there is no vLLM
-- engine object, and none of its subprocesses is left.
pub rest_releases :
    (device_ids : Option (List ℕ)) {s : System}
    → Reach timely (init device_ids) s
    → is_resting s.engine.state ≡ true
    → (s.engine.handle ≡ none) × (s.engine.child_pids ≡ [])
rest_releases device_ids r rest = (Reach-IsSafe device_ids r).released.resting rest

-- In a timely environment a task that is about to build an engine finds none: no load ever starts
-- beside a living engine or its subprocesses, so no two cores meet on the GPU.
pub load_finds_none :
    (device_ids : Option (List ℕ)) {s : System} (i : ℕ) {t : Task}
    → Reach timely (init device_ids) s
    → get_elem? s.tasks i ≡ some t
    → before_load t ≡ 1
    → (s.engine.handle ≡ none) × (s.engine.child_pids ≡ [])
load_finds_none device_ids {s} i r at builds =
    (Reach-IsSafe device_ids r).released.unbuilt (omega (arith, le-total before_load s.tasks i at))

-- A pause is pending: it is noted, or some task unloads a freshly loaded engine because of it.
abbrev pub IsPausing : System → Type 0
IsPausing s = (is_some s.engine.pending_pause ≡ true) ⊎ (1 ≤ total unloading_again s.tasks)

-- 1 for a task that owns a load and has not begun to unload again.
abbrev loads_on : Task → ℕ
loads_on (Task.reload_vram n k) = 1
loads_on (Task.reload_create n k) = 1
loads_on (Task.reload_done_wait k) = 1
loads_on Task.reload_failed_wait = 1
loads_on Task.start_create = 1
loads_on Task.start_done_wait = 1
loads_on Task.start_failed_wait = 1
loads_on _ = 0

-- What an advance makes of a pending pause, with `q` tasks that unload again.
abbrev Honours : ℕ → Task → Move → Type 0
Honours q t m =
    ((q' : ℕ)
      → q' + unloading_again t ≡ q + unloading_again m.task
      → (m.engine.state ≢ running)
        × (((is_some m.engine.pending_pause ≡ true) ⊎ (1 ≤ q'))
            ⊎ (is_resting m.engine.state ≡ true)))
    × (total unloading_again m.spawned ≡ 0)

advance-Honours :
    (q : ℕ) (o : Outcome) (t : Task) (e : VllmEngine)
    → timely o t e.state ≡ true
    → ((p : Phase) → acting p t ≤ bit (in_phase p e.state))
    → reaping_dead t ≤ bit (is_dead e.state)
    → unloading_again t ≤ q
    → q + loads_on t ≤ 1
    → bit (in_phase loads e.state) + bit (in_phase starts e.state) ≡ 1
    → (is_some e.pending_pause ≡ true) ⊎ (1 ≤ q)
    → Yields (Honours q t) (advance o t e)
unfolding advance
advance-Honours q o (Task.pause_wait u k) e ok own dead qt few up h = ground arith
advance-Honours q o (Task.destroying d (by_pause k)) e ok own dead qt few up h =
    ground (arith, own unloads)
advance-Honours q o (Task.destroying d (by_reload k)) e ok own dead qt few up h =
    ground (arith, own loads)
advance-Honours q o (Task.destroying d by_start) e ok own dead qt few up h =
    ground (arith, own starts)
advance-Honours q o (Task.destroying d by_stop) e ok own dead qt few up h =
    ground (arith, own stops)
advance-Honours q o (Task.destroying d by_recover) e ok own dead qt few up h = ground arith
advance-Honours q o _ e ok own dead qt few up h =
    ground (arith, own unloads, own loads, own starts, own stops)

load_owner : (t : Task) → unloading_again t + loads_on t ≡ acting loads t + acting starts t
load_owner (Task.destroying d (by_reload k)) = refl
load_owner (Task.destroying d by_start) = refl
load_owner _ = ground arith

load_owners :
    (s : System)
    → IsSafe s
    → total unloading_again s.tasks + total loads_on s.tasks
      ≤ bit (in_phase loads s.engine.state) + bit (in_phase starts s.engine.state)
load_owners s v = ground (
  arith,
  total-add unloading_again loads_on s.tasks,
  total_mono (λ t. unloading_again t + loads_on t) (λ t. acting loads t + acting starts t)
      (λ t. ground (arith, load_owner t)) s.tasks,
  total-add (acting loads) (acting starts) s.tasks,
  v.owned.owners loads,
  v.owned.owners starts,
)

load_phase :
    (s : System)
    → IsSafe s
    → IsPausing s
    → bit (in_phase loads s.engine.state) + bit (in_phase starts s.engine.state) ≡ 1
load_phase s v h = ground (arith, v.flagged.pause_flag, load_owners s v)

not_running :
    (e : VllmEngine)
    → bit (in_phase loads e.state) + bit (in_phase starts e.state) ≡ 1
    → e.state ≢ running
not_running e h r = ground arith

-- In a timely environment, once a pause has been noted during a load: no step brings the engine to
-- running, and the pause stays pending, as the note or by a task that unloads the freshly loaded engine
-- again, until the engine is paused or, after a start that failed, stopped.
pub pending_pause_honoured :
    (device_ids : Option (List ℕ)) {s t : System}
    → Reach timely (init device_ids) s
    → IsPausing s
    → Step timely s t
    → (t.engine.state ≢ running) × (IsPausing t ⊎ (is_resting t.engine.state ≡ true))
unfolding spawn settle
pending_pause_honoured device_ids {s} r h (call c k e) =
    let up = load_phase s (Reach-IsSafe device_ids r) h in
    rw e (
      not_running s.engine up,
      inl (elim h [
        | inl n ↦ inl n
        | inr n ↦ inr (omega (arith, n, total-spawn unloading_again s c))
      ]),
    )
pending_pause_honoured device_ids {s} {t} r h (run i o c at ok e) =
    let v = Reach-IsSafe device_ids r in
    let up = load_phase s v h in
    let moved = exec_task-Ran i o c s t e in
    let own : (q : Phase) → acting q c ≤ bit (in_phase q s.engine.state) =
      (λ q. omega (arith, le-total (acting q) s.tasks i at, v.owned.owners q)) in
    let (keeps, quiet) =
      yielded (Honours (total unloading_again s.tasks) c) _ moved.move
        (advance-Honours (total unloading_again s.tasks) o c s.engine ok own
          (omega (arith, le-total reaping_dead s.tasks i at, v.owned.reaper))
          (le-total unloading_again s.tasks i at)
          (omega (arith, le-total loads_on s.tasks i at, load_owners s v, up)) up h)
        moved.moved in
    rw (moved.after)
      (keeps _ (omega (arith, total-settle unloading_again s i c moved.move at, quiet)))
