-- ===== src/Listener/Client.antt =====
-- src/py-inference/src/scheduler_client/grpc_client.py: SchedulerClient, and the heartbeat
-- `_report_status` of scheduler_client/listener.py. A channel is a number; what a remote call answers is
-- an argument, none if it raises. Utilization is a number of per cent.
use openmodel.Base.{
  ℕ, Bool, true, false, ◌==◌, List, [], ◌∷◌, ◌++◌, Option, none, some, String, if◌then◌else◌,
}
use openmodel.Engine.State.{EngineStatus, is_running}
use openmodel.Pool.State.{Pool, pool_status}
use openmodel.Listener.Poll.{Listener, Input, Command, poll, gpu_state_available}

pub record GpuSchedule : Type 0 where
  pub state : ℕ
  pub seconds_until_next_change : ℕ
  pub message : String

-- `GpuSchedule.is_available`.
unfoldable pub schedule_is_available : GpuSchedule → Bool
schedule_is_available g = g.state == gpu_state_available

pub record InferenceStatusReport : Type 0 where
  pub is_running : Bool
  pub active_requests : ℕ
  pub gpu_utilization_pct : ℕ
  pub loaded_model : String
  pub timestamp_unix : ℕ

pub record SchedulerClient : Type 0 where
  pub addr : String
  pub channel : Option ℕ
  pub stub : Bool  -- `_stub is not None`

unfoldable pub new_client : String → SchedulerClient
new_client addr = record { addr = addr; channel = none; stub = false }

-- grpc.insecure_channel gives channel `n`.
unfoldable pub connect : ℕ → SchedulerClient → SchedulerClient
connect n c = record c { channel = some n; stub = true }

-- The channels that `close` closes.
unfoldable pub close : SchedulerClient → List ℕ
close c = elim c.channel [ none ↦ [] | some n ↦ n ∷ [] ]

-- A remote call.
pub data Rpc : Type 0 where
  get_gpu_schedule_rpc : Rpc
  report_inference_status : InferenceStatusReport → Rpc

-- What a method of the client gives, and the calls that it makes; with no stub it raises.
unfoldable pub get_gpu_schedule :
    Option GpuSchedule → SchedulerClient → Option GpuSchedule × List Rpc
get_gpu_schedule answer c = if c.stub then (answer, get_gpu_schedule_rpc ∷ []) else (none, [])

unfoldable pub client_report_status : Bool → ℕ → ℕ → String → ℕ → SchedulerClient → List Rpc
client_report_status running active utilization model now c =
    if c.stub
    then report_inference_status (record {
      is_running = running;
      active_requests = active;
      gpu_utilization_pct = utilization;
      loaded_model = model;
      timestamp_unix = now;
    })
      ∷ []
    else []

-- `_report_status`. The status has no utilization set, which is 0 then; nothing that is raised leaves it.
unfoldable pub report_status : Option EngineStatus → ℕ → SchedulerClient → List Rpc
unfolding client_report_status
report_status none now c = []
report_status (some st) now c =
    client_report_status (is_running st.state) st.active_requests 0 st.loaded_model now c

abbrev state_of : Option GpuSchedule → Option ℕ
state_of none = none
state_of (some g) = some g.state

-- A poll with its remote calls: the heartbeat follows an answer. `i.reply` is what the client gives.
unfoldable pub poll_calls : Option GpuSchedule → SchedulerClient → Pool → ℕ → List Rpc
unfolding get_gpu_schedule report_status
poll_calls answer c p now =
    let (given, asked) = get_gpu_schedule answer c in
    elim given [ none ↦ asked | some g ↦ asked ++ report_status (pool_status p) now c ]

-- `_poll` over the client.
unfoldable pub poll_client :
    Option GpuSchedule
    → SchedulerClient
    → Pool
    → Input
    → Listener
    → Listener × List Command × List Rpc
unfolding poll poll_calls get_gpu_schedule
poll_client answer c p i l =
    let (l', cs) = poll (record i { reply = state_of (get_gpu_schedule answer c).0 }) l in
    (l', cs, poll_calls answer c p i.now)
