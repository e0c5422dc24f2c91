-- ===== src/Pool/State.antt =====
-- src/py-inference/src/inference/engine_pool.py: the fields of EnginePool over VLLMEngines, and
-- what the pool reports. An engine is named by its index. Time is a number of the clock's units.
use openmodel.Base.{
  ℕ, Bool, true, false, ◌&&◌, List, [], ◌∷◌, Option, none, some, String, map, any, all, total,
  if◌then◌else◌,
}
use openmodel.Engine.State.{
  VllmEngine, EngineState, EngineStatus, all_gpus, running, dead, paused, stopped, loading,
  is_running, is_available, status,
}

pub data Mode : Type 0 where
  tensor_parallel multi_instance : Mode

-- Any other name of a strategy means round robin.
pub data Strategy : Type 0 where
  round_robin least_busy : Strategy

-- The engine that a session last used, and until when it is pinned to it.
pub record Pin : Type 0 where
  pub engine : ℕ
  pub expiry : ℕ

pub record Pool : Type 0 where
  pub mode : Mode
  pub engines : List VllmEngine
  pub lb_strategy : Strategy
  pub rr_index : ℕ
  pub pause_requested : Bool
  pub switching : Bool
  pub engine_sessions : List (String × Pin)
  pub engine_session_ttl : ℕ
  pub engine_affinity_slack : ℕ

-- `EnginePool.__init__`, with 600 seconds for the time that a pin holds.
unfoldable pub new_pool : Mode → List VllmEngine → Strategy → Pool
new_pool mode engines lb = record {
  mode = mode;
  engines = engines;
  lb_strategy = lb;
  rr_index = 0;
  pause_requested = false;
  switching = false;
  engine_sessions = [];
  engine_session_ttl = 600;
  engine_affinity_slack = 2;
}

abbrev pub is_dead_status : EngineStatus → Bool
is_dead_status s = elim s.state [ EngineState.dead ↦ true | _ ↦ false ]

abbrev pub is_paused_status : EngineStatus → Bool
is_paused_status s = elim s.state [ EngineState.paused ↦ true | _ ↦ false ]

abbrev pub is_stopped_status : EngineStatus → Bool
is_stopped_status s = elim s.state [ EngineState.stopped ↦ true | _ ↦ false ]

-- The aggregate of the engines' states, before the switch is considered.
unfoldable pub agg_state : List EngineStatus → EngineState
agg_state ss =
    if any (λ s. is_running s.state) ss
    then running
    else if all is_dead_status ss
    then dead
    else if all is_paused_status ss
    then paused
    else if all is_stopped_status ss
    then stopped
    else paused

first_model : List EngineStatus → String
first_model [] = ""
first_model (s ∷ ss) = s.loaded_model

-- `status` of a pool of several engines.
unfoldable pub status_many : Bool → List EngineStatus → EngineStatus
unfolding agg_state first_model
status_many switching ss = record {
  state = if switching then loading else agg_state ss;
  active_requests = total (λ s. s.active_requests) ss;
  loaded_model = first_model ss;
  gpu_id = all_gpus;
}

-- `status` of a pool of one engine over all GPUs.
unfoldable pub status_one : Bool → EngineStatus → EngineStatus
status_one switching s = if switching && is_running s.state then record s { state = loading } else s

status_first : Bool → List VllmEngine → Option EngineStatus
unfolding status_one status
status_first switching [] = none
status_first switching (e ∷ es) = some (status_one switching (status e))

-- `none`: the index error of a tensor-parallel pool with no engine.
unfoldable pub pool_status : Pool → Option EngineStatus
unfolding status_first status_many
pool_status p = elim p.mode [
  | tensor_parallel ↦ status_first p.switching p.engines
  | multi_instance ↦ some (status_many p.switching (map status p.engines))
]

-- `is_available` of a pool of several engines.
unfoldable pub any_available : Pool → Bool
any_available p = any is_available p.engines

-- `request_pause`, and the first thing that `pause` does.
unfoldable pub request_pause : Pool → Pool
request_pause p = record p { pause_requested = true }

pause_unstarted : String → VllmEngine → VllmEngine
pause_unstarted path e = record e { model = path; state = paused }

-- The pool when the GPU is not free at startup.
unfoldable pub start_paused : String → Pool → Pool
unfolding pause_unstarted
start_paused path p = record p { engines = map (pause_unstarted path) p.engines }
