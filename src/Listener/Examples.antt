-- ===== src/Listener/Examples.antt =====
-- Runs of the listener, and the theorems about it at them.
use openmodel.Base.{
  ◌≡◌, ◌≢◌, refl, ℕ, List, [], ◌∷◌, Option, none, some, true, false, Bool, inl, arith,
}
use openmodel.Engine.State.{immediate, running, new_engine}
use openmodel.Pool.State.{Pool, multi_instance, round_robin, new_pool}
use openmodel.Listener.Client.{
  GpuSchedule, InferenceStatusReport, SchedulerClient, get_gpu_schedule_rpc,
  report_inference_status, poll_client,
}
use openmodel.Listener.Heartbeat.{TellsPool, report_truthful}
use openmodel.Listener.Poll.{
  Listener, Input, request_pause, pause, pending, poll, new_listener, gpu_state_available,
  gpu_state_winning_post, gpu_state_window_post,
}
use openmodel.Listener.Fence.{watch, watches, yield_fenced, yield_pauses}
use openmodel.Listener.Failsafe.{blackout_fences}

abbrev input : Option ℕ → ℕ → Bool → Input
input reply now paused = record {
  reply = reply;
  now = now;
  future = pending;
  dispatched = true;
  paused = paused;
}

abbrev winning : List Input
winning =
    input (some gpu_state_available) 0 true
    ∷ input (some gpu_state_winning_post) 5 false
    ∷ input (some gpu_state_winning_post) 10 true
    ∷ []

yield_fenced_example : (watches winning (new_listener, false)).1 ≡ true
unfolding watches watch poll new_listener
yield_fenced_example = yield_fenced winning (inl refl)

abbrev serving : List Input
serving = input (some gpu_state_available) 0 true ∷ []

abbrev follower : Listener
unfolding new_listener
follower = record new_listener { last_state = some gpu_state_available; resume_future = true }

yield_pauses_example :
    let i = input (some gpu_state_winning_post) 5 true in
    let (l', fenced) = watch i (follower, false) in
    ((poll i follower).1 ≡ request_pause ∷ pause immediate ∷ [])
    × (true ≡ true → (fenced ≡ true) × (l'.last_state ≡ some gpu_state_winning_post))
    × (true ≡ false → l'.last_state ≢ some gpu_state_winning_post)
unfolding watches watch poll new_listener
yield_pauses_example =
    yield_pauses serving (input (some gpu_state_winning_post) 5 true) gpu_state_winning_post refl
      refl refl refl

blackout_fences_example :
    (watch (input none 70 true) (
      watches
        (input none 10 true ∷ input none 40 true ∷ [])
        (watches serving (new_listener, false)))).1
    ≡ true
unfolding watches watch poll new_listener
blackout_fences_example =
    blackout_fences serving (input none 10 true) (input none 40 true ∷ []) (input none 70 true) refl
      refl refl (omega arith) refl refl

abbrev cut_off : Listener
unfolding new_listener
cut_off = record new_listener {
  last_state = some gpu_state_window_post;
  connected = false;
  disconnect_since = some 10;
  failsafe_triggered = true;
}

-- One engine of two runs, with three requests.
abbrev reported_pool : Pool
unfolding new_engine new_pool
reported_pool =
    new_pool multi_instance
      (record (new_engine none) { state = running; active_requests = 3 } ∷ new_engine none ∷ [])
      round_robin

abbrev connected_client : SchedulerClient
connected_client = record { addr = "localhost:50051"; channel = some 0; stub = true }

abbrev available_answer : GpuSchedule
available_answer = record {
  state = gpu_state_available;
  seconds_until_next_change = 60;
  message = "";
}

report_truthful_example :
    let i = input none 5 true in
    let (l', cs, rpcs) =
      poll_client (some available_answer) connected_client reported_pool i new_listener in
    (some available_answer ≡ none → rpcs ≡ get_gpu_schedule_rpc ∷ [])
    × ((g : GpuSchedule)
        → some available_answer ≡ some g
        → (r : InferenceStatusReport) × (rpcs
            ≡ get_gpu_schedule_rpc ∷ report_inference_status r ∷ [])
          × TellsPool reported_pool r)
unfolding reported_pool
report_truthful_example =
    report_truthful reported_pool connected_client (input none 5 true) new_listener
      (some available_answer) refl refl
