-- ===== src/Service/Examples.antt =====
-- Runs of the listener and the pool, and the theorems about them at them.
use openmodel.Base.{ℕ, ◌<◌, ◌≡◌, refl, inl, true, List, [], ◌∷◌, none, some, length}
use openmodel.Engine.State.{new_engine, immediate}
use openmodel.Pool.State.{Pool, multi_instance, round_robin, new_pool}
use openmodel.Pool.Fanout.{resumes, pauses}
use openmodel.Listener.Poll.{Input, pending, gpu_state_available, gpu_state_winning_post}
use openmodel.Service.Dispatch.{
  Service, ServiceEvent, polls, starts, returns, switches_to, new_service, service_event,
  service_run,
}
use openmodel.Service.Told.{told}
use openmodel.Service.Fencing.{yield_reaches_engines, yield_lasts}

abbrev answered : ℕ → Input
answered s = record { reply = some s; now = 0; future = pending; dispatched = true; paused = true }

abbrev two_engines : Pool
unfolding new_pool
two_engines = new_pool multi_instance (new_engine none ∷ new_engine none ∷ []) round_robin

-- A yield arrives while the pool resumes its first engine.
abbrev preempted : List ServiceEvent
preempted =
    polls (answered gpu_state_available)
    ∷ starts
    ∷ polls (answered gpu_state_winning_post)
    ∷ returns 0
    ∷ starts
    ∷ []

abbrev after : Service
after = service_run preempted (new_service two_engines)

after_calls : after.calls ≡ resumes 0 ∷ pauses immediate 0 ∷ pauses immediate 1 ∷ []
unfolding service_run new_service new_pool
after_calls = refl

yield_reaches_engines_example :
    (after.pool.pause_requested ≡ true)
    × ((i : ℕ) → i < length after.pool.engines → told after.pool.mode i after.calls ≡ some true)
unfolding service_run new_service new_pool
yield_reaches_engines_example = yield_reaches_engines two_engines preempted (inl refl) refl

yield_lasts_example : (service_event (switches_to "mistral") after).calls ≡ after.calls
unfolding service_run new_service new_pool
yield_lasts_example =
    yield_lasts two_engines preempted (switches_to "mistral") (inl refl) refl refl refl
