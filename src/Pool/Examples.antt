-- ===== src/Pool/Examples.antt =====
-- A pool of three engines, and the theorems about it at it.
use openmodel.Base.{
  zero, suc, ◌≡◌, ◌≢◌, ◌+◌, ◌<◌, ◌≤◌, refl, ℕ, List, [], ◌∷◌, none, some, String, true, false,
  arith, get_elem?, length,
}
use openmodel.Engine.State.{
  VllmEngine, EngineState, EngineStatus, running, paused, new_engine, is_available, all_gpus,
}
use text.Mathlib.Text.{◌==◌ as str_eq}
use text.Mathlib.TextEquality.{eq_iff}
use openmodel.Pool.State.{Pool, Strategy, round_robin, least_busy, multi_instance, new_pool}
use openmodel.Pool.Sessions.{lookup, insert}
use openmodel.Pool.Pick.{Candidate, load, candidates, least, find_index, pinned, pick_engine}
use openmodel.Pool.Choice.{Every, pick_serves}
use openmodel.Pool.Balance.{pick_near_least}
use openmodel.Pool.Pinned.{PoolEvent, picks_for, engines_become, pool_event, pool_run}
use openmodel.Pool.Affinity.{session_sticks}
use openmodel.Pool.Rotation.{picks, round_robin_fair}

abbrev engine_with : EngineState → ℕ → VllmEngine
unfolding new_engine
engine_with st n = record (new_engine none) { state = st; active_requests = n; handle = some 7 }

abbrev three : List VllmEngine
three = engine_with running 3 ∷ engine_with paused 0 ∷ engine_with running 1 ∷ []

abbrev pool_by : Strategy → Pool
unfolding new_pool
pool_by st = record (new_pool multi_instance three st) {
  engine_sessions = ("s", record { engine = 0; expiry = 50 }) ∷ [];
}

abbrev sticky : Pool
sticky = pool_by least_busy

abbrev rotating : Pool
rotating = pool_by round_robin

abbrev left : Candidate
left = record { index = 0; engine = engine_with running 3 }

abbrev right : Candidate
right = record { index = 2; engine = engine_with running 1 }

nonempty : (k : String) → str_eq k "" ≡ false → k ≢ ""
nonempty k h e = ground (arith, eq_iff k "")

pick_serves_example :
    (get_elem? three 0 ≡ some (engine_with running 3))
    × (is_available (engine_with running 3) ≡ true)
unfolding new_engine new_pool pick_engine is_available candidates pinned lookup find_index least
pick_serves_example = pick_serves sticky (some "s") 40 {d = left} refl

pick_near_least_example : Every (λ x. 3 ≤ load x + 2) (candidates 0 three)
unfolding new_engine new_pool pick_engine is_available candidates pinned lookup find_index least
pick_near_least_example = pick_near_least sticky (some "s") 40 {d = left} refl refl

abbrev after_pick : Pool
unfolding new_engine new_pool
after_pick = record sticky { engine_sessions = ("s", record { engine = 0; expiry = 640 }) ∷ [] }

abbrev changed : List VllmEngine
unfolding new_engine
changed = engine_with running 4 ∷ engine_with running 9 ∷ engine_with running 3 ∷ []

-- While the session is pinned, others come, and the loads change.
abbrev meanwhile : List PoolEvent
meanwhile = picks_for (some "t") 41 ∷ picks_for none 42 ∷ engines_become changed ∷ []

differs : (j k : String) → str_eq j k ≡ false → some j ≢ some k
differs j k h e = ground (arith, eq_iff j k)

near_four :
    (j : ℕ) (x : VllmEngine)
    → get_elem? changed j ≡ some x
    → is_available x ≡ true
    → 4 ≤ x.active_requests + 2
unfolding new_engine
near_four zero x at up = ground arith
near_four (suc zero) x at up = ground arith
near_four (suc (suc zero)) x at up = ground arith
near_four (suc (suc (suc j))) x at up = absurd (ground arith)

session_sticks_example :
    (q' : Pool) × (pick_engine (pool_run meanwhile after_pick) (some "s") 43
      ≡ some (record { index = 0; engine = engine_with running 4 }, q'))
unfolding after_pick changed near_four new_engine new_pool pool_run pool_event pick_engine
    candidates pinned lookup find_index least insert is_available engine_with pool_by
session_sticks_example =
    session_sticks sticky "s" 40 meanwhile 43 {d = left} {p' = after_pick}
      {e = engine_with running 4} (nonempty "s" refl) refl
      ((differs "t" "s" refl, omega arith), (((λ e. ground arith), omega arith), (tt, tt)))
      (omega arith) (omega arith) refl refl near_four

round_robin_fair_example :
    (t : ℕ) × (t < length (candidates 0 three))
    × (pick_engine (picks t 40 rotating) none 40
        ≡ some (right, record rotating { rr_index = 0 + t + 1 }))
unfolding new_engine new_pool candidates is_available
round_robin_fair_example = round_robin_fair rotating 40 1 refl refl

abbrev report : EngineStatus
report = record { state = running; active_requests = 4; loaded_model = ""; gpu_id = all_gpus }
