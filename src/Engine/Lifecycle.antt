-- ===== src/Engine/Lifecycle.antt =====
-- src/py-inference/src/inference/engine.py: the life of an engine as the miner sees it, and VLLMEngine
-- against it.
use openmodel.Base.{
  bit, ◌≡◌, refl, subst, sym, ℕ, ◌≤◌, List, Option, arith, le-total, Bool, true, false, is_some,
  none,
}
use openmodel.Engine.State.{VllmEngine, EngineState, running}
use openmodel.Engine.Moves.{Task, Outcome, Move, by_pause, by_reload, by_start, by_stop, by_recover}
use openmodel.Engine.Tasks.{advance}
use openmodel.Engine.System.{System, Reach, Step, call, run, init, settle, spawn}
use openmodel.Engine.Rules.{Yields, yielded, Ran, exec_task-Ran}
use openmodel.Engine.Cores.{IsCored, Reach-IsCored}
use openmodel.Engine.Phases.{
  Phase, unloads, loads, starts, stops, in_phase, acting, reaping_dead, is_dead, timely,
}
use openmodel.Engine.Commitment.{ends_load}
use openmodel.Engine.Release.{before_load, reaping_now, is_resting}

-- Off the GPU; a load without a core; a load with its core; serving; giving the GPU back; crashed.
pub data Life : Type 0 where
  off coming risen serving leaving crashed : Life

abbrev pub life_of : EngineState → Bool → Life
life_of EngineState.stopped core = off
life_of EngineState.paused core = off
life_of EngineState.loading false = coming
life_of EngineState.loading true = risen
life_of EngineState.starting false = coming
life_of EngineState.starting true = risen
life_of EngineState.running core = serving
life_of EngineState.unloading core = leaving
life_of EngineState.stopping core = leaving
life_of EngineState.dead core = crashed

abbrev pub life : VllmEngine → Life
life e = life_of e.state (is_some e.handle)

-- What may follow: a core is built only by a load from rest, an engine serves only after a load has its
-- core, and gives the GPU back before it rests.
abbrev pub may_follow : Life → Life → Bool
may_follow off off = true
may_follow off coming = true
may_follow coming coming = true
may_follow coming risen = true
may_follow coming off = true
may_follow risen risen = true
may_follow risen serving = true
may_follow risen coming = true
may_follow risen off = true
may_follow serving serving = true
may_follow serving leaving = true
may_follow serving crashed = true
may_follow leaving leaving = true
may_follow leaving off = true
may_follow leaving coming = true
may_follow crashed crashed = true
may_follow crashed coming = true
may_follow crashed leaving = true
may_follow crashed off = true
may_follow _ _ = false

abbrev Lives : Life → Move → Type 0
Lives a m = may_follow a (life m.engine) ≡ true

pub advance-Lives :
    (o : Outcome) (t : Task) (e : VllmEngine)
    → timely o t e.state ≡ true
    → ((p : Phase) → acting p t ≤ bit (in_phase p e.state))
    → reaping_dead t ≤ bit (is_dead e.state)
    → (1 ≤ before_load t → is_some e.handle ≡ false)
    → (1 ≤ reaping_now t → is_some e.handle ≡ false)
    → (1 ≤ ends_load t → is_some e.handle ≡ true)
    → (is_resting e.state ≡ true → is_some e.handle ≡ false)
    → (e.state ≡ running → is_some e.handle ≡ true)
    → Yields (Lives (life e)) (advance o t e)
unfolding advance
advance-Lives o (Task.pause_wait u k) e ok own reap empty shut full rest core = ground arith
advance-Lives o (Task.destroying x (by_pause k)) e ok own reap empty shut full rest core =
    ground (arith, own unloads)
advance-Lives o (Task.destroying x (by_reload k)) e ok own reap empty shut full rest core =
    ground (arith, own loads)
advance-Lives o (Task.destroying x by_start) e ok own reap empty shut full rest core =
    ground (arith, own starts)
advance-Lives o (Task.destroying x by_stop) e ok own reap empty shut full rest core =
    ground (arith, own stops)
advance-Lives o (Task.destroying x by_recover) e ok own reap empty shut full rest core =
    ground arith
advance-Lives o _ e ok own reap empty shut full rest core =
    ground (arith, own unloads, own loads, own starts, own stops)

rests : (a : Life) → may_follow a a ≡ true
rests Life.off = refl
rests Life.coming = refl
rests Life.risen = refl
rests Life.serving = refl
rests Life.leaving = refl
rests Life.crashed = refl

no-core : {h : Option ℕ} → h ≡ none → is_some h ≡ false
no-core e = rw e

-- A timely environment, at a moment the loop comes to: whatever happens next, the engine's life, told
-- by its state and by whether there is a vLLM engine object, stays as it is or goes on as `may_follow`
-- allows. So it comes to serve from a load that has its core alone, and it rests, from serving, only
-- after a phase that gives the GPU back.
pub lifecycle_refined :
    (device_ids : Option (List ℕ)) {s t : System}
    → Reach timely (init device_ids) s
    → Step timely s t
    → may_follow (life s.engine) (life t.engine) ≡ true
unfolding spawn settle
lifecycle_refined device_ids {s} {t} r (call c k e) =
    subst (λ x. may_follow (life s.engine) (life x.engine) ≡ true) (sym e) (rests (life s.engine))
lifecycle_refined device_ids {s} {t} r (run i o c at ok e) =
    subst (λ x. may_follow (life s.engine) (life x.engine) ≡ true) (sym moved.after)
      (yielded (Lives (life s.engine)) _ moved.move
        (advance-Lives o c s.engine ok own reap
          (λ h.
            no-core
              (v.safe.released.unbuilt (omega (arith, h, le-total before_load s.tasks i at))).0)
          (λ h.
            no-core (v.safe.released.shut (omega (arith, h, le-total reaping_now s.tasks i at))))
          (λ h. v.cored.loaded (omega (arith, h, le-total ends_load s.tasks i at)))
          (λ h. no-core (v.safe.released.resting h).0) v.cored.serving)
        moved.moved)
  where
    v : IsCored s
    v = Reach-IsCored device_ids r

    moved : Ran i o c s t
    moved = exec_task-Ran i o c s t e

    own : (q : Phase) → acting q c ≤ bit (in_phase q s.engine.state)
    own q = omega (arith, le-total (acting q) s.tasks i at, v.safe.owned.owners q)

    reap : reaping_dead c ≤ bit (is_dead s.engine.state)
    reap = omega (arith, le-total reaping_dead s.tasks i at, v.safe.owned.reaper)
