-- ===== src/Startup/Examples.antt =====
-- A start while the miner has the GPU, and the theorem about src/py-inference/src/main.py at it.
use openmodel.Base.{◌≡◌, refl, ℕ, List, true, false, [], ◌∷◌, some, All, any, all}
use openmodel.Base.Text.{same}
use openmodel.Engine.State.{new_engine}
use openmodel.Pool.State.{Pool, multi_instance, least_busy, new_pool, any_available}
use openmodel.Listener.Poll.{
  Listener, Input, resume, poll, polls, gpu_state_available, gpu_state_winning_post,
}
use openmodel.Config.Devices.{resolve_multi_gpu}
use openmodel.Config.Load.{load_config}
use openmodel.Config.Build.{Built, vllm, BuiltPool, create_engine_pool}
use openmodel.Config.Examples.{file, environment}
use openmodel.Startup.Boot.{schedule, gpu_available, has_stub, pool_of, Booted, boot}
use openmodel.Startup.Deferral.{IsDeferred, not_free, is_resume, startup_defers}

-- The engine of one GPU.
abbrev one_gpu : ℕ → Built
unfolding new_engine
one_gpu d =
    vllm
      (record {
        gpu_memory_utilization = 85;
        max_model_len = 8192;
        tensor_parallel_size = 1;
        device_ids = d ∷ [];
        gpu_id = d;
        enforce_eager = false;
      })
      (new_engine (some (d ∷ [])))

abbrev built : BuiltPool
built = record {
  mode = multi_instance;
  engines = one_gpu 2 ∷ one_gpu 0 ∷ one_gpu 5 ∷ [];
  lb_strategy = least_busy;
}

abbrev built_pool : Pool
unfolding one_gpu new_engine new_pool
built_pool =
    new_pool multi_instance
      (new_engine (some (2 ∷ [])) ∷ new_engine (some (0 ∷ [])) ∷ new_engine (some (5 ∷ [])) ∷ [])
      least_busy

startup_defers_example :
    (r : Booted) × (boot (schedule gpu_state_winning_post) (some "/models/llama") built_pool
      ≡ some r)
    × (r.starting ≡ [])
    × All (IsDeferred "/models/llama") r.pool.engines
    × (any_available r.pool ≡ false)
    × (has_stub (schedule gpu_state_winning_post) ≡ true
        → (l : Listener) × (r.listener ≡ some l)
          × ((is : List Input)
              → all not_free is ≡ true
              → (any is_resume (polls is l).1 ≡ false)
                × ((i : Input)
                    → i.reply ≡ some gpu_state_available
                    → i.dispatched ≡ true
                    → (poll i (polls is l).0).1 ≡ resume ∷ [])))
unfolding resolve_multi_gpu one_gpu built_pool new_pool
startup_defers_example =
    startup_defers 8 environment file (schedule gpu_state_winning_post) "/models/llama" {b = built}
      {p = built_pool} (unfold load_config create_engine_pool same in refl) (unfold pool_of in refl)
      (unfold gpu_available in refl)
