-- ===== src/Config/Examples.antt =====
-- Configuration files, and the theorems about src/py-inference/src/config.py at them.
use openmodel.Base.{
  ◌≡◌, ◌⊎◌, refl, ℕ, Bool, ◌&&◌, leb, [], ◌∷◌, Option, none, some, length, if◌then◌else◌,
}
use openmodel.Base.Text.{Text, codes, same}
use openmodel.Config.Devices.{MultiGpuSection, auto}
use openmodel.Config.Load.{InferenceSection, FocSection, ConfigFile, Environment, load_config}
use openmodel.Config.Covers.{BuildsAll, pool_covers_devices}
use openmodel.Config.Environment.{interpolate_env_vars}

-- Three engines on the GPUs 2, 0 and 5; the token is in the environment too.
abbrev pub three_gpus : MultiGpuSection
three_gpus = record {
  mode = some (codes "multi_instance");
  gpu_count = some auto;
  device_ids = some (2 ∷ 0 ∷ 5 ∷ []);
  mock_gpu_count = none;
}

abbrev inference : InferenceSection
inference = record {
  engine = some (codes "vllm");
  model = none;
  gpu_memory_utilization = none;
  max_model_len = some 8192;
  api_port = none;
  tensor_parallel_size = none;
  enforce_eager = none;
  api_token = some (codes "old");
  max_tokens_limit = none;
  multi_gpu = some three_gpus;
  load_balancer = some (codes "least_busy");
}

abbrev foc : FocSection
foc = record { backend = some (codes "real"); simulate_delay = none; bridge_url = none }

abbrev pub file : ConfigFile
file = record {
  mode = some (codes "prod");
  inference = inference;
  foc = foc;
  grpc_port = none;
  log_level = none;
  log_format = none;
}

abbrev pub environment : Environment
environment = record { inference_api_token = some (codes "s3cret"); scheduler_grpc_addr = none }

pool_covers_devices_example :
    let c = (load_config 8 environment file).inference in
    (length c.multi_gpu.device_ids ≡ c.multi_gpu.gpu_count)
    × (c.engine ≡ codes "vllm"
        → (c.multi_gpu.mode ≡ codes "tensor_parallel") ⊎ (c.multi_gpu.mode ≡ codes "multi_instance")
        → BuildsAll c)
pool_covers_devices_example = pool_covers_devices 8 environment file

abbrev letter : ℕ → Bool
letter c = leb b'A' c && leb c b'Z'

abbrev variables : Text → Option Text
variables name = if same name (codes "PORT") then some (codes "50${X}") else none

-- A value is not read again, and a variable that is not set leaves nothing.
interpolated :
    interpolate_env_vars letter variables (codes "a $${PORT}${NONE}${} b") ≡ codes "a $50${X}${} b"
unfolding interpolate_env_vars same
interpolated = refl
