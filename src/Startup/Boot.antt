-- ===== src/Startup/Boot.antt =====
-- src/py-inference/src/main.py: from the connection to the scheduler to the listener. The engines are
-- VLLMEngines.
use openmodel.Base.{
  ℕ, Bool, true, false, ◌==◌, List, [], ◌∷◌, Option, none, some, String, if◌then◌else◌,
}
use openmodel.Engine.State.{VllmEngine}
use openmodel.Pool.State.{Pool, tensor_parallel, multi_instance, new_pool, start_paused}
use openmodel.Pool.Fanout.{indices}
use openmodel.Listener.Poll.{Listener, new_listener, gpu_state_available}
use openmodel.Config.Build.{Built, vllm, mock, BuiltPool}

-- The scheduler at startup: `connect` raises, the call raises, or the state of the GPU.
pub data SchedulerAnswer : Type 0 where
  no_connection no_answer : SchedulerAnswer
  schedule : ℕ → SchedulerAnswer

-- The engines of a pool that was built; none if one is a MockEngine, which this model has no state for.
unfoldable pub vllm_engines : List Built → Option (List VllmEngine)
vllm_engines [] = some []
vllm_engines (vllm a e ∷ bs) = elim (vllm_engines bs) [ none ↦ none | some es ↦ some (e ∷ es) ]
vllm_engines (mock e ∷ bs) = none

unfoldable pub pool_of : BuiltPool → Option Pool
unfolding vllm_engines
pool_of b = elim (vllm_engines b.engines) [
  | none ↦ none
  | some es ↦ some (new_pool b.mode es b.lb_strategy)
]

unfoldable pub gpu_available : SchedulerAnswer → Bool
gpu_available (schedule s) = s == gpu_state_available
gpu_available _ = false

-- `if scheduler_client._stub`: the stub is there unless `connect` raised.
unfoldable pub has_stub : SchedulerAnswer → Bool
has_stub no_connection = false
has_stub _ = true

-- The engines that `EnginePool.start` starts.
unfoldable pub start_all : Pool → List ℕ
start_all p = elim p.mode [ tensor_parallel ↦ 0 ∷ [] | multi_instance ↦ indices p ]

-- The pool, the engines whose `start` is called, and the listener that starts once these returned.
pub record Booted : Type 0 where
  pub pool : Pool
  pub starting : List ℕ
  pub listener : Option Listener

-- `path` is what `ensure_model` gives; none: it raised, and so does `main`.
unfoldable pub boot : SchedulerAnswer → Option String → Pool → Option Booted
unfolding gpu_available has_stub start_all
boot a none p = none
boot a (some path) p = some (record {
  pool = if gpu_available a then p else start_paused path p;
  starting = if gpu_available a then start_all p else [];
  listener = if has_stub a then some new_listener else none;
})
