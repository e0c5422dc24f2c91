-- ===== src/Pool/Yielding.antt =====
-- src/py-inference/src/inference/engine_pool.py: a pause request against the loops of `resume` and
-- `switch_model`, and what `status` says during a switch.
use openmodel.Base.{
  range_from, ℕ, zero, suc, ◌+◌, ◌≡◌, refl, ap, ◌∙◌, true, false, List, [], ◌∷◌, ◌++◌, map, length,
  arith, replicate,
}
use mathlib.Core.List.{append-nil, append_assoc}
use openmodel.Pool.State.{Pool, multi_instance, request_pause}
use openmodel.Pool.Fanout.{
  EngineCall, resumes, PoolTask, finished, gathering, switch_gathering, resume_at, switch_at, Turn,
  Event, call_returns, pause_arrives, react, follow, resume_all,
}

react_paused :
    (e : Event) (t : PoolTask) (p : Pool)
    → p.pause_requested ≡ true
    → ((react e t p).calls ≡ []) × ((react e t p).pool.pause_requested ≡ true)
unfolding react
react_paused call_returns (resume_at i) p h = ground arith
react_paused call_returns (switch_at path i) p h = ground arith
react_paused call_returns gathering p h = ground arith
react_paused call_returns switch_gathering p h = ground arith
react_paused call_returns finished p h = ground arith
react_paused pause_arrives t p h = ground arith

follow_paused :
    (es : List Event) (t : Turn) → t.pool.pause_requested ≡ true → (follow es t).calls ≡ t.calls
unfolding follow
follow_paused [] t h = refl
follow_paused (e ∷ es) t h =
    let (none_made, still) = react_paused e t.task t.pool h in
    follow_paused es
      (record (react e t.task t.pool) { calls = t.calls ++ (react e t.task t.pool).calls }) still
    ∙ ap (λ cs. t.calls ++ cs) none_made
    ∙ append-nil t.calls

-- Once a pause is requested, a resume or a model switch that is under way calls no further engine,
-- whatever returns afterwards.
pause_stops_loop : (es : List Event) (t : Turn) → (follow (pause_arrives ∷ es) t).calls ≡ t.calls
unfolding follow react request_pause
pause_stops_loop es t =
    follow_paused es (record { pool = request_pause t.pool; task = t.task; calls = t.calls ++ [] })
      refl
    ∙ append-nil t.calls

abbrev turn : Pool → PoolTask → List EngineCall → Turn
turn p t calls = record { pool = p; task = t; calls = calls }

resume_rest :
    (n i : ℕ) (p : Pool) (before : List EngineCall)
    → p.pause_requested ≡ false
    → i + n ≡ length p.engines
    → let r = follow (replicate (suc n) call_returns) (turn p (resume_at i) before) in
      (r.calls ≡ before ++ map resumes (range_from i n)) × (r.task ≡ finished)
unfolding follow react
resume_rest zero i p before quiet e = ground arith
resume_rest (suc n) i p before quiet e = ground (
  arith,
  resume_rest n (suc i) p (before ++ resumes i ∷ []) quiet,
  append_assoc before (resumes i ∷ []) (map resumes (range_from (suc i) n)),
)

-- A resume of a pool of several engines, if no pause arrives, resumes every engine once, in order,
-- and each only after the one before it has returned.
resume_completes :
    (p : Pool) {n : ℕ}
    → p.mode ≡ multi_instance
    → length p.engines ≡ suc n
    → let r = follow (replicate (suc n) call_returns) (resume_all p) in
      (r.calls ≡ map resumes (range_from 0 (suc n))) × (r.task ≡ finished)
unfolding resume_all
resume_completes p {n} m e =
    let first : resume_all p
        ≡ turn (record p { pause_requested = false }) (resume_at 1) (resumes 0 ∷ []) =
      ground arith in
    rw first
      (resume_rest n 1 (record p { pause_requested = false }) (resumes 0 ∷ []) refl (omega arith))
