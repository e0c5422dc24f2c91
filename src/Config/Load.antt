-- ===== src/Config/Load.antt =====
-- src/py-inference/src/config.py: `load_config`, from the parsed file and the environment. A field of a
-- section is none where its key is missing; a number with a fraction is given in hundredths.
use openmodel.Base.{ℕ, Bool, false, [], ◌++◌, Option, if◌then◌else◌}
use openmodel.Base.Text.{Text, codes, same}
use openmodel.Config.Devices.{MultiGpuSection, MultiGpuConfig, get, resolve_multi_gpu}

pub record InferenceSection : Type 0 where
  pub engine : Option Text
  pub model : Option Text
  pub gpu_memory_utilization : Option ℕ
  pub max_model_len : Option ℕ
  pub api_port : Option ℕ
  pub tensor_parallel_size : Option ℕ
  pub enforce_eager : Option Bool
  pub api_token : Option Text
  pub max_tokens_limit : Option ℕ
  pub multi_gpu : Option MultiGpuSection
  pub load_balancer : Option Text

pub record FocSection : Type 0 where
  pub backend : Option Text
  pub simulate_delay : Option Bool
  pub bridge_url : Option Text

-- The file, with the port of the scheduler as it is printed, and the two environment variables that
-- are read.
pub record ConfigFile : Type 0 where
  pub mode : Option Text
  pub inference : InferenceSection
  pub foc : FocSection
  pub grpc_port : Option Text
  pub log_level : Option Text
  pub log_format : Option Text

pub record Environment : Type 0 where
  pub inference_api_token : Option Text
  pub scheduler_grpc_addr : Option Text

pub record InferenceConfig : Type 0 where
  pub engine : Text
  pub model : Text
  pub gpu_memory_utilization : ℕ
  pub max_model_len : ℕ
  pub api_port : ℕ
  pub tensor_parallel_size : ℕ
  pub enforce_eager : Bool
  pub api_token : Text
  pub max_tokens_limit : ℕ
  pub multi_gpu : MultiGpuConfig
  pub load_balancer : Text

-- The registries of models are passed on as they are.
pub record FocConfig : Type 0 where
  pub backend : Text
  pub simulate_delay : Bool
  pub real_bridge_url : Text

pub record AppConfig : Type 0 where
  pub mode : Text
  pub inference : InferenceConfig
  pub foc : FocConfig
  pub scheduler_addr : Text
  pub log_level : Text
  pub log_format : Text

unfoldable pub load_inference : Text → ℕ → Environment → InferenceSection → InferenceConfig
load_inference mode detected env raw =
    let gpus = resolve_multi_gpu mode detected raw.multi_gpu in
    record {
      engine = get raw.engine (if same mode (codes "dev") then codes "mock" else codes "vllm");
      model = get raw.model (codes "meta-llama/Llama-3-8B");
      gpu_memory_utilization = get raw.gpu_memory_utilization 85;
      max_model_len = get raw.max_model_len 4096;
      api_port = get raw.api_port 8000;
      tensor_parallel_size =
          if same gpus.mode (codes "tensor_parallel")
          then gpus.gpu_count
          else get raw.tensor_parallel_size 1;
      enforce_eager = get raw.enforce_eager false;
      api_token = get env.inference_api_token (get raw.api_token []);
      max_tokens_limit = get raw.max_tokens_limit 0;
      multi_gpu = gpus;
      load_balancer = get raw.load_balancer (codes "round_robin");
    }

unfoldable pub load_foc : FocSection → FocConfig
load_foc raw = record {
  backend = get raw.backend (codes "mock");
  simulate_delay = get raw.simulate_delay false;
  real_bridge_url = get raw.bridge_url (codes "http://127.0.0.1:3100");
}

unfoldable pub load_config : ℕ → Environment → ConfigFile → AppConfig
unfolding load_inference load_foc
load_config detected env raw =
    let mode = get raw.mode (codes "dev") in
    record {
      mode = mode;
      inference = load_inference mode detected env raw.inference;
      foc = load_foc raw.foc;
      scheduler_addr =
          get env.scheduler_grpc_addr (codes "localhost:" ++ get raw.grpc_port (codes "50051"));
      log_level = get raw.log_level (codes "info");
      log_format = get raw.log_format (codes "json");
    }
