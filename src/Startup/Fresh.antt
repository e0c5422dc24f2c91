-- ===== src/Startup/Fresh.antt =====
-- src/py-inference/src/inference/engine_pool.py and engine.py: engines that were just created hold no
-- GPU.
use openmodel.Base.{
  ◌≡◌, refl, subst, ℕ, List, [], ◌∷◌, Option, none, some, All, arith, Bool-cases, Option-cases, inl,
  inr,
}
use openmodel.Base.Text.{Text, codes, same}
use openmodel.Engine.State.{VllmEngine, new_engine}
use openmodel.Pool.State.{Mode, Strategy, tensor_parallel, multi_instance, round_robin}
use openmodel.Config.Load.{InferenceConfig}
use openmodel.Config.Build.{
  EngineArgs, Built, vllm, mock, create_engine, args_for, create_each, with_engine, pool_with,
  strategy_of, BuiltPool, create_engine_pool,
}
use openmodel.Startup.Boot.{vllm_engines}

-- No engine object and no subprocess.
abbrev pub HoldsNothing : VllmEngine → Type 0
HoldsNothing e = (e.handle ≡ none) × (e.child_pids ≡ [])

abbrev pub IsFresh : Built → Type 0
IsFresh (vllm a e) = HoldsNothing e
IsFresh (mock e) = Unit

create_engine-IsFresh :
    (t : Text) (a : EngineArgs) {b : Built} → create_engine t a ≡ some b → IsFresh b
unfolding create_engine new_engine
create_engine-IsFresh t a {b = vllm x e} h = (ground arith, ground arith)
create_engine-IsFresh t a {b = mock e} h = tt

create_each-IsFresh :
    (c : InferenceConfig) (ds : List ℕ) {bs : List Built}
    → create_each c ds ≡ some bs
    → All IsFresh bs
unfolding create_each
create_each-IsFresh c [] {bs = []} h = tt
create_each-IsFresh c [] {bs = b ∷ bs} h = absurd (ground arith)
create_each-IsFresh c (d ∷ ds) {bs = []} h = absurd (ground arith)
create_each-IsFresh c (d ∷ ds) {bs = b ∷ bs} h = (
  create_engine-IsFresh c.engine (args_for c 1 (d ∷ []) d) (ground arith),
  create_each-IsFresh c ds (ground arith),
)

pool_with-IsFresh :
    (mode : Mode) (lb : Strategy) (o : Option (List Built)) {b : BuiltPool}
    → ((bs : List Built) → o ≡ some bs → All IsFresh bs)
    → pool_with mode lb o ≡ some b
    → All IsFresh b.engines
pool_with-IsFresh mode lb none f h = absurd (ground arith)
pool_with-IsFresh mode lb (some bs) f h = subst (All IsFresh) (ground arith) (f bs refl)

with_engine-IsFresh :
    (t : Text) (a : EngineArgs) (bs : List Built)
    → with_engine (create_engine t a) (some []) ≡ some bs
    → All IsFresh bs
with_engine-IsFresh t a [] h = tt
with_engine-IsFresh t a (b ∷ []) h = (create_engine-IsFresh t a (ground arith), tt)
with_engine-IsFresh t a (b ∷ c ∷ bs) h = absurd (ground arith)

pub create_engine_pool-IsFresh :
    (c : InferenceConfig) {b : BuiltPool} → create_engine_pool c ≡ some b → All IsFresh b.engines
unfolding create_engine_pool
create_engine_pool-IsFresh c h =
    elim (Bool-cases (same c.multi_gpu.mode (codes "tensor_parallel"))) [
      | inl t ↦
          pool_with-IsFresh tensor_parallel round_robin _
            (with_engine-IsFresh c.engine
              (args_for c c.multi_gpu.gpu_count c.multi_gpu.device_ids 0))
            (rw t at h)
      | inr n ↦ elim (Bool-cases (same c.multi_gpu.mode (codes "multi_instance"))) [
        | inl m ↦
            pool_with-IsFresh multi_instance (strategy_of c.load_balancer) _
              (λ bs e. create_each-IsFresh c c.multi_gpu.device_ids e) (rw (n, m) at h)
        | inr m ↦ absurd (ground arith)
      ]
    ]

pub vllm_engines-HoldsNothing :
    (bs : List Built) {es : List VllmEngine}
    → vllm_engines bs ≡ some es
    → All IsFresh bs
    → All HoldsNothing es
unfolding vllm_engines
vllm_engines-HoldsNothing [] e h = subst (All HoldsNothing) {x = []} (ground arith) tt
vllm_engines-HoldsNothing (mock x ∷ bs) e h = absurd (ground arith)
vllm_engines-HoldsNothing (vllm a x ∷ bs) e (f, h) = elim (Option-cases (vllm_engines bs)) [
  | inl none_there ↦ absurd (ground arith)
  | inr (es, there) ↦
      subst (All HoldsNothing) {x = x ∷ es} (ground arith) (f, vllm_engines-HoldsNothing bs there h)
]
