-- ===== src/Service/Fencing.antt =====
-- src/py-inference/src/scheduler_client/listener.py, inference/engine_pool.py: a yield that the listener has
-- recorded, and the calls of the engines.
use openmodel.Base.{
  ℕ, ◌<◌, ◌≡◌, refl, ap, sym, subst, ◌∙◌, ◌⊎◌, inl, inr, arith, Bool, true, false, List, [], ◌∷◌,
  ◌++◌, some, String, get_elem?, length, Option-cases,
}
use mathlib.Core.List.{append-nil}
use openmodel.Pool.State.{Pool, multi_instance}
use openmodel.Pool.Fanout.{EngineCall, PoolTask, pause_all, switch_all, continue}
use openmodel.Listener.Poll.{new_listener, poll}
use openmodel.Listener.Fence.{watch, fence_all, is_yield_state, IsFenced, watch-IsFenced}
use openmodel.Service.Told.{told, told_pauses, append_some}
use openmodel.Service.Obeyed.{
  Obeys, ServiceObeys, continue_quiet, switch_quiet, heed-fence, carry_out_all-Obeys,
  carry_out_all-listener, Obeys-calls,
}
use openmodel.Service.Dispatch.{
  PoolCall, resumes_pool, pauses_pool, Service, new_service, ServiceEvent, polls, starts, returns,
  switches_to, start_next, service_event, service_run,
}

start-Obeys :
    (q : List PoolCall) (s : Service)
    → Obeys q s.pool s.calls
    → ServiceObeys (start_next q (record s { queue = q }))
unfolding start_next
start-Obeys [] s v = v
start-Obeys (resumes_pool ∷ []) s v = absurd (ground arith)
start-Obeys (pauses_pool u ∷ []) s v =
    unfold pause_all in
    (
      refl,
      λ i h.
          append_some s.pool.mode i s.calls _ (
            told_pauses s.pool.mode i u 0 (length s.pool.engines) (omega arith) (omega (arith, h))),
    )
start-Obeys (q ∷ r ∷ rs) s v = unfold start_next in v

continue-Obeys :
    (q : List PoolCall) (t : PoolTask) (p : Pool) (cs : List EngineCall)
    → Obeys q p cs
    → Obeys q (continue t p).pool (cs ++ (continue t p).calls)
continue-Obeys [] t p cs v =
    let (none_made, still, same, like) = continue_quiet t p v.0 in
    Obeys-calls [] p (continue t p).pool cs (continue t p).calls still same like
      (λ i. ap (told p.mode i) none_made) v
continue-Obeys (q ∷ qs) t p cs v = v

switch-Obeys :
    (q : List PoolCall) (path : String) (p : Pool) (cs : List EngineCall)
    → Obeys q p cs
    → Obeys q (switch_all path p).pool (cs ++ (switch_all path p).calls)
switch-Obeys [] path p cs v =
    let (still, same, like, silent, x) = switch_quiet path p v.0 in
    Obeys-calls [] p (switch_all path p).pool cs (switch_all path p).calls still same like silent v
switch-Obeys (q ∷ qs) path p cs v = v

start_next-listener : (q : List PoolCall) (s : Service) → (start_next q s).listener ≡ s.listener
unfolding start_next
start_next-listener [] s = refl
start_next-listener (q ∷ qs) s = refl

-- The invariant: mining is fenced off, so far as the listener knows, only if the pool obeys.
record IsObeyed (s : Service) : Type 0 where
  fence : Bool
  fenced : IsFenced (s.listener, fence)
  obeys : fence ≡ true → ServiceObeys s

event-IsObeyed : (e : ServiceEvent) (s : Service) → IsObeyed s → IsObeyed (service_event e s)
unfolding service_event
event-IsObeyed (polls i) s v = record {
  fence = fence_all i (poll i s.listener).1 v.fence;
  fenced =
      subst (λ l. IsFenced (l, fence_all i (poll i s.listener).1 v.fence))
        (sym (
          carry_out_all-listener (poll i s.listener).1
            (record s { listener = (poll i s.listener).0 })))
        (unfold watch in watch-IsFenced i (s.listener, v.fence) v.fenced);
  obeys = λ k.
      carry_out_all-Obeys (poll i s.listener).1 (record s { listener = (poll i s.listener).0 })
        v.fence v.obeys (heed-fence i (poll i s.listener).1 v.fence v.fence (λ e. e) k);
}
event-IsObeyed starts s v = record {
  fence = v.fence;
  fenced = subst (λ l. IsFenced (l, v.fence)) (sym (start_next-listener s.queue s)) v.fenced;
  obeys = λ k. start-Obeys s.queue s (v.obeys k);
}
event-IsObeyed (returns k) s v = elim (Option-cases (get_elem? s.tasks k)) [
  | inl e ↦ rw (service_event, e) v
  | inr (t, e) ↦
      rw (service_event, e)
        (record {
          fence = v.fence;
          fenced = v.fenced;
          obeys = λ h. continue-Obeys s.queue t s.pool s.calls (v.obeys h);
        })
]
event-IsObeyed (switches_to path) s v = record {
  fence = v.fence;
  fenced = v.fenced;
  obeys = λ k. switch-Obeys s.queue path s.pool s.calls (v.obeys k);
}

run-IsObeyed : (es : List ServiceEvent) (s : Service) → IsObeyed s → IsObeyed (service_run es s)
unfolding service_run
run-IsObeyed [] s v = v
run-IsObeyed (e ∷ es) s v = run-IsObeyed es (service_event e s) (event-IsObeyed e s v)

-- The state applied last is a yield, or the fail-safe has triggered.
abbrev pub HasYielded : Service → Type 0
HasYielded s =
    (is_yield_state s.listener.last_state ≡ true) ⊎ (s.listener.failsafe_triggered ≡ true)

yielded-Obeys :
    (p : Pool) (es : List ServiceEvent)
    → let s = service_run es (new_service p) in HasYielded s → ServiceObeys s
unfolding new_service new_listener
yielded-Obeys p es h = elim h [
  | inl y ↦ v.obeys (v.fenced.yielded y)
  | inr t ↦ v.obeys (v.fenced.safe t)
]
  where
    v : IsObeyed (service_run es (new_service p))
    v =
        run-IsObeyed es (new_service p)
          (record { fence = false; fenced = ground arith; obeys = λ k. absurd (ground arith) })

-- In every run of the listener and the pool, with resumes and model switches still under way: if the
-- state that the listener applied last is a yield, or its fail-safe has triggered, and all that it
-- dispatched has started, then the loops of the pool are asked to stop, and each engine was told to
-- pause and not to resume since; nor, in a pool of several engines, was it called since to switch its
-- model, which would end in a resume.
pub yield_reaches_engines :
    (p : Pool) (es : List ServiceEvent)
    → let s = service_run es (new_service p) in
      HasYielded s
      → s.queue ≡ []
      → (s.pool.pause_requested ≡ true)
        × ((i : ℕ) → i < length s.pool.engines → told s.pool.mode i s.calls ≡ some true)
yield_reaches_engines p es h idle =
    subst
      (λ q. Obeys q (service_run es (new_service p)).pool (service_run es (new_service p)).calls)
      idle (yielded-Obeys p es h)

abbrev is_poll : ServiceEvent → Bool
is_poll (polls i) = true
is_poll _ = false

-- In the same situation, in a pool of several engines: whatever returns and whatever model is asked for,
-- until the listener polls again the pool calls no engine at all.
pub yield_lasts :
    (p : Pool) (es : List ServiceEvent) (e : ServiceEvent)
    → let s = service_run es (new_service p) in
      HasYielded s
      → s.queue ≡ []
      → s.pool.mode ≡ multi_instance
      → is_poll e ≡ false
      → (service_event e s).calls ≡ s.calls
unfolding service_event
yield_lasts p es (polls i) h idle m other = absurd (ground arith)
yield_lasts p es starts h idle m other =
    ap (λ q. (start_next q (service_run es (new_service p))).calls) idle ∙ unfold start_next in refl
yield_lasts p es (returns k) h idle m other =
    let s = service_run es (new_service p) in
    let on = (yield_reaches_engines p es h idle).0 in
    elim (Option-cases (get_elem? s.tasks k)) [
      | inl e ↦ rw (service_event, e) refl
      | inr (t, e) ↦
          rw (service_event, e)
            (ap (λ x. s.calls ++ x) (continue_quiet t s.pool on).0 ∙ append-nil s.calls)
    ]
yield_lasts p es (switches_to path) h idle m other =
    let s = service_run es (new_service p) in
    let on = (yield_reaches_engines p es h idle).0 in
    ap (λ x. s.calls ++ x) ((switch_quiet path s.pool on).4 m) ∙ append-nil s.calls
