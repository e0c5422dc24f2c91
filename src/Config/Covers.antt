-- ===== src/Config/Covers.antt =====
-- src/py-inference/src/config.py and engine_pool.py: every GPU of the configuration is used, and once.
use openmodel.Base.{
  length-range_from, ◌≡◌, refl, ap, ℕ, Bool, true, false, ◌==◌, List, [], ◌∷◌, ◌++◌, ◌⊎◌, map,
  Option, none, some, arith, all, length, Option-cases, inl, inr,
}
use mathlib.Core.List.{append-nil}
use openmodel.Base.Text.{Text, codes, same}
use openmodel.Engine.State.{new_engine}
use openmodel.Pool.State.{tensor_parallel, multi_instance, round_robin}
use openmodel.Config.Devices.{MultiGpuSection, get, resolve_multi_gpu}
use openmodel.Config.Load.{Environment, ConfigFile, load_inference, load_config, InferenceConfig}
use openmodel.Config.Build.{
  EngineArgs, Built, vllm, mock, create_engine, args_for, create_each, strategy_of, BuiltPool,
  create_engine_pool,
}

resolve_multi_gpu-length :
    (app_mode : Text) (detected : ℕ) (raw : Option MultiGpuSection)
    → let c = resolve_multi_gpu app_mode detected raw in length c.device_ids ≡ c.gpu_count
unfolding resolve_multi_gpu
resolve_multi_gpu-length app_mode detected none = refl
resolve_multi_gpu-length app_mode detected (some raw) = elim (Option-cases raw.device_ids) [
  | inl e ↦ rw e (length-range_from 0 _)
  | inr (ids, e) ↦ rw e refl
]

-- The devices that the engines span.
abbrev pub devices : List Built → List ℕ
devices [] = []
devices (vllm a e ∷ bs) = a.device_ids ++ devices bs
devices (mock e ∷ bs) = devices bs

-- An engine that is split over as many GPUs as it has.
abbrev pub fits : Built → Bool
fits (vllm a e) = a.tensor_parallel_size == length a.device_ids
fits (mock e) = false

create_vllm :
    (t : Text) (a : EngineArgs)
    → t ≡ codes "vllm"
    → create_engine t a ≡ some (vllm a (new_engine (some a.device_ids)))
unfolding create_engine same
create_vllm t a v = rw v refl

-- The engine of one device.
abbrev one : InferenceConfig → ℕ → Built
one c d = vllm (args_for c 1 (d ∷ []) d) (new_engine (some (d ∷ [])))

create_each_vllm :
    (c : InferenceConfig) (ds : List ℕ)
    → c.engine ≡ codes "vllm"
    → create_each c ds ≡ some (map (one c) ds)
unfolding create_each args_for
create_each_vllm c [] v = refl
create_each_vllm c (d ∷ ds) v =
    rw (create_vllm c.engine (args_for c 1 (d ∷ []) d) v, create_each_vllm c ds v) refl

devices-map : (c : InferenceConfig) (ds : List ℕ) → devices (map (one c) ds) ≡ ds
unfolding args_for
devices-map c [] = refl
devices-map c (d ∷ ds) = ap (λ xs. d ∷ xs) (devices-map c ds)

fits-map : (c : InferenceConfig) (ds : List ℕ) → all fits (map (one c) ds) ≡ true
unfolding args_for
fits-map c [] = refl
fits-map c (d ∷ ds) = fits-map c ds

-- Engines over exactly the devices that are wanted, each split over as many as it has.
abbrev pub BuildsAll : InferenceConfig → Type 0
BuildsAll c =
    (b : BuiltPool) × (create_engine_pool c ≡ some b)
    × (devices b.engines ≡ c.multi_gpu.device_ids)
    × (all fits b.engines ≡ true)

tensor_parallel-BuildsAll :
    (c : InferenceConfig)
    → c.engine ≡ codes "vllm"
    → c.multi_gpu.mode ≡ codes "tensor_parallel"
    → length c.multi_gpu.device_ids ≡ c.multi_gpu.gpu_count
    → BuildsAll c
tensor_parallel-BuildsAll c v m n =
    let a = args_for c c.multi_gpu.gpu_count c.multi_gpu.device_ids 0 in
    (
      record {
        mode = tensor_parallel;
        engines = vllm a (new_engine (some c.multi_gpu.device_ids)) ∷ [];
        lb_strategy = round_robin;
      },
      (unfold create_engine_pool same in
          rw (m, create_vllm c.engine a v) (unfold args_for in refl)),
      (unfold args_for in append-nil c.multi_gpu.device_ids),
      (unfold args_for in ground (arith, n)),
    )

multi_instance-BuildsAll :
    (c : InferenceConfig)
    → c.engine ≡ codes "vllm"
    → c.multi_gpu.mode ≡ codes "multi_instance"
    → BuildsAll c
multi_instance-BuildsAll c v m = (
  record {
    mode = multi_instance;
    engines = map (one c) c.multi_gpu.device_ids;
    lb_strategy = strategy_of c.load_balancer;
  },
  (unfold create_engine_pool same in rw (m, create_each_vllm c c.multi_gpu.device_ids v) refl),
  devices-map c c.multi_gpu.device_ids,
  fits-map c c.multi_gpu.device_ids,
)

-- Whatever the file, the environment and the detected GPUs: if the type is vllm and the mode is one of
-- the two, a pool is created whose engines span exactly the resolved GPUs, each once and in order, and
-- every engine is split over as many GPUs as it has. The count of GPUs is always that of the list.
pub pool_covers_devices :
    (detected : ℕ) (env : Environment) (raw : ConfigFile)
    → let c = (load_config detected env raw).inference in
      (length c.multi_gpu.device_ids ≡ c.multi_gpu.gpu_count)
      × (c.engine ≡ codes "vllm"
          → (c.multi_gpu.mode ≡ codes "tensor_parallel")
            ⊎ (c.multi_gpu.mode ≡ codes "multi_instance")
          → BuildsAll c)
unfolding load_config load_inference
pool_covers_devices detected env raw =
    let mode = get raw.mode (codes "dev") in
    let counted = resolve_multi_gpu-length mode detected raw.inference.multi_gpu in
    let c = load_inference mode detected env raw.inference in
    (
      counted,
      λ v m. elim m [
        | inl t ↦ tensor_parallel-BuildsAll c v t counted
        | inr i ↦ multi_instance-BuildsAll c v i
      ],
    )
