-- ===== src/Engine/State.antt =====
-- src/py-inference/src/inference/engine.py: the engine's enumerations and the fields of VLLMEngine,
-- with what reads them. A request id and a process id are numbers; `handle` is `self._engine`, the
-- AsyncLLMEngine object, by its identity.
use openmodel.Base.{ℕ, Bool, true, false, ◌&&◌, List, [], ◌∷◌, Option, none, some, String}

pub data YieldUrgency : Type 0 where
  normal immediate : YieldUrgency

pub data EngineState : Type 0 where
  stopped starting running unloading paused loading stopping dead : EngineState

abbrev pub is_running : EngineState → Bool
is_running EngineState.running = true
is_running _ = false

-- -1, every GPU, or the one GPU of the engine.
pub data GpuId : Type 0 where
  all_gpus : GpuId
  gpu : ℕ → GpuId

pub record EngineStatus : Type 0 where
  pub state : EngineState
  pub active_requests : ℕ
  pub loaded_model : String
  pub gpu_id : GpuId

pub record VllmEngine : Type 0 where
  pub state : EngineState
  pub handle : Option ℕ
  pub model : String
  pub device_ids : Option (List ℕ)
  pub active_requests : ℕ
  pub inflight_request_ids : List ℕ
  pub pending_pause : Option YieldUrgency
  pub pending_resume : Bool
  pub child_pids : List ℕ
  pub accepting : Bool
  pub recovering : Bool

-- `VLLMEngine.__init__`, for the fields above.
unfoldable pub new_engine : Option (List ℕ) → VllmEngine
new_engine device_ids = record {
  state = stopped;
  handle = none;
  model = "";
  device_ids = device_ids;
  active_requests = 0;
  inflight_request_ids = [];
  pending_pause = none;
  pending_resume = false;
  child_pids = [];
  accepting = true;
  recovering = false;
}

unfoldable pub is_available : VllmEngine → Bool
is_available e = is_running e.state && e.accepting

status_gpu : Option (List ℕ) → GpuId
status_gpu (some (d ∷ [])) = gpu d
status_gpu _ = all_gpus

unfoldable pub status : VllmEngine → EngineStatus
unfolding status_gpu
status e = record {
  state = e.state;
  active_requests = e.active_requests;
  loaded_model = e.model;
  gpu_id = status_gpu e.device_ids;
}
