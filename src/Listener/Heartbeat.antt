-- ===== src/Listener/Heartbeat.antt =====
-- src/py-inference/src/scheduler_client/listener.py: what the scheduler hears of the engines.
use openmodel.Base.{◌≡◌, ◌↔◌, true, false, [], ◌∷◌, Option, none, some, any, total, arith, ℕ, map}
use openmodel.Engine.State.{EngineState, is_running, EngineStatus, running, status}
use openmodel.Pool.State.{Pool, multi_instance, pool_status, status_many}
use openmodel.Pool.Report.{status_reports}
use openmodel.Listener.Poll.{Listener, Input}
use openmodel.Listener.Client.{
  GpuSchedule, InferenceStatusReport, SchedulerClient, get_gpu_schedule_rpc,
  report_inference_status, get_gpu_schedule, report_status, client_report_status, poll_calls,
  poll_client,
}

-- What the report says against the pool.
abbrev pub TellsPool : Pool → InferenceStatusReport → Type 0
TellsPool p r =
    ((r.is_running ≡ true)
      ↔ ((p.switching ≡ false) × (any (λ e. is_running e.state) p.engines ≡ true)))
    × (r.active_requests ≡ total (λ e. e.active_requests) p.engines)

-- The report of a status.
abbrev report_of : EngineStatus → ℕ → InferenceStatusReport
report_of st now = record {
  is_running = is_running st.state;
  active_requests = st.active_requests;
  gpu_utilization_pct = 0;
  loaded_model = st.loaded_model;
  timestamp_unix = now;
}

is_running_iff : (x : EngineState) → (is_running x ≡ true) ↔ (x ≡ running)
is_running_iff x = (λ h. ground arith, λ h. ground arith)

report_of-TellsPool :
    (p : Pool) (st : EngineStatus) (now : ℕ)
    → p.mode ≡ multi_instance
    → pool_status p ≡ some st
    → TellsPool p (report_of st now)
report_of-TellsPool p st now m told =
    let (runs, _, _, active) = status_reports p m told in
    let same = is_running_iff st.state in ((λ h. runs.0 (same.0 h), λ h. same.1 (runs.1 h)), active)

status-some :
    (p : Pool)
    → p.mode ≡ multi_instance
    → pool_status p ≡ some (status_many p.switching (map status p.engines))
unfolding pool_status
status-some p m = ground arith

-- A pool of several engines, a client that has connected: each poll that the scheduler answers is followed
-- by one report, which says that inference runs exactly when some engine runs and no switch of the pool
-- is under way, and gives the active requests of all engines; a poll that is not answered reports nothing.
pub report_truthful :
    (p : Pool) (c : SchedulerClient) (i : Input) (l : Listener) (answer : Option GpuSchedule)
    → p.mode ≡ multi_instance
    → c.stub ≡ true
    → let (l', cs, rpcs) = poll_client answer c p i l in
      (answer ≡ none → rpcs ≡ get_gpu_schedule_rpc ∷ [])
      × ((g : GpuSchedule)
          → answer ≡ some g
          → (r : InferenceStatusReport) × (rpcs
              ≡ get_gpu_schedule_rpc ∷ report_inference_status r ∷ [])
            × TellsPool p r)
unfolding poll_client poll_calls get_gpu_schedule report_status client_report_status
report_truthful p c i l answer m up =
    let st = status_many p.switching (map status p.engines) in
    (
      λ h. ground arith,
      λ g h. (
        report_of st i.now,
        ground (arith, status-some p m),
        report_of-TellsPool p st i.now m (status-some p m),
      ),
    )
