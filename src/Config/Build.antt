-- ===== src/Config/Build.antt =====
-- src/py-inference/src/inference/engine_pool.py, `create_engine_pool`, and engine.py, `create_engine`:
-- the engines that a configuration asks for.
use openmodel.Base.{ℕ, Bool, List, [], ◌∷◌, Option, none, some, if◌then◌else◌}
use openmodel.Base.Text.{Text, codes, same}
use openmodel.Engine.State.{VllmEngine, new_engine}
use openmodel.Mock.Tasks.{MockEngine, new_mock}
use openmodel.Pool.State.{Mode, tensor_parallel, multi_instance, Strategy, round_robin, least_busy}
use openmodel.Config.Load.{InferenceConfig}

-- What an engine is created with: `gpu_id` is for a mock engine, all else for VLLMEngine.
pub record EngineArgs : Type 0 where
  pub gpu_memory_utilization : ℕ
  pub max_model_len : ℕ
  pub tensor_parallel_size : ℕ
  pub device_ids : List ℕ
  pub gpu_id : ℕ
  pub enforce_eager : Bool

-- The arguments that the state of VLLMEngine leaves out stand beside it.
pub data Built : Type 0 where
  vllm : EngineArgs → VllmEngine → Built
  mock : MockEngine → Built

-- `create_engine`; none: ValueError.
unfoldable pub create_engine : Text → EngineArgs → Option Built
create_engine engine_type a =
    if same engine_type (codes "mock")
    then some (mock (new_mock a.gpu_id))
    else if same engine_type (codes "vllm")
    then some (vllm a (new_engine (some a.device_ids)))
    else none

-- The arguments of `EnginePool`.
pub record BuiltPool : Type 0 where
  pub mode : Mode
  pub engines : List Built
  pub lb_strategy : Strategy

unfoldable pub args_for : InferenceConfig → ℕ → List ℕ → ℕ → EngineArgs
args_for c tp devices gpu_id = record {
  gpu_memory_utilization = c.gpu_memory_utilization;
  max_model_len = c.max_model_len;
  tensor_parallel_size = tp;
  device_ids = devices;
  gpu_id = gpu_id;
  enforce_eager = c.enforce_eager;
}

abbrev pub with_engine : Option Built → Option (List Built) → Option (List Built)
with_engine (some b) (some bs) = some (b ∷ bs)
with_engine _ _ = none

-- One engine for each device.
unfoldable pub create_each : InferenceConfig → List ℕ → Option (List Built)
unfolding create_engine args_for
create_each c [] = some []
create_each c (d ∷ ds) =
    with_engine (create_engine c.engine (args_for c 1 (d ∷ []) d)) (create_each c ds)

abbrev pub pool_with : Mode → Strategy → Option (List Built) → Option BuiltPool
pool_with mode lb none = none
pool_with mode lb (some engines) =
    some (record { mode = mode; engines = engines; lb_strategy = lb })

-- Any other name means round robin.
abbrev pub strategy_of : Text → Strategy
strategy_of name = if same name (codes "least_busy") then least_busy else round_robin

-- `create_engine_pool`; none: ValueError, for an unknown mode or type of engine.
unfoldable pub create_engine_pool : InferenceConfig → Option BuiltPool
unfolding create_engine args_for create_each
create_engine_pool c =
    let gpus = c.multi_gpu in
    if same gpus.mode (codes "tensor_parallel")
    then pool_with tensor_parallel round_robin (
        with_engine (create_engine c.engine (args_for c gpus.gpu_count gpus.device_ids 0))
          (some []))
    else if same gpus.mode (codes "multi_instance")
    then pool_with multi_instance (strategy_of c.load_balancer) (create_each c gpus.device_ids)
    else none
