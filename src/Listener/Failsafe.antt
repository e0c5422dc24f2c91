-- ===== src/Listener/Failsafe.antt =====
-- src/py-inference/src/scheduler_client/listener.py: the fail-safe, when the scheduler cannot be
-- reached, and the way back from it.
use openmodel.Base.{
  ℕ, ◌+◌, ◌≤◌, ◌≡◌, refl, ◌∙◌, Bool, true, false, not, List, [], ◌∷◌, none, some, arith, all,
  is_some,
}
use openmodel.Listener.Poll.{Listener, Input, resume, poll, new_listener, gpu_state_available}
use openmodel.Listener.Fence.{Watch, watch, watches, IsFenced, watches-IsFenced}

abbrev pub is_silent : Input → Bool
is_silent i = not (is_some i.reply)

poll-timeout : (i : Input) (l : Listener) → (poll i l).0.failsafe_timeout ≡ l.failsafe_timeout
unfolding poll
poll-timeout i l = ground arith

watches-timeout :
    (is : List Input) (w : Watch) → ((watches is w).0).failsafe_timeout ≡ (w.0).failsafe_timeout
unfolding watches watch
watches-timeout [] w = refl
watches-timeout (i ∷ is) w = watches-timeout is (watch i w) ∙ poll-timeout i w.0

silent_since :
    (i : Input) (l : Listener) (t : ℕ)
    → is_silent i ≡ true
    → l.disconnect_since ≡ some t
    → (poll i l).0.disconnect_since ≡ some t
unfolding poll
silent_since i l t quiet e = ground arith

silent_first :
    (i : Input) (l : Listener)
    → is_silent i ≡ true
    → l.disconnect_since ≡ none
    → (poll i l).0.disconnect_since ≡ some i.now
unfolding poll
silent_first i l quiet e = ground arith

watches-since :
    (is : List Input) (w : Watch) (t : ℕ)
    → all is_silent is ≡ true
    → (w.0).disconnect_since ≡ some t
    → ((watches is w).0).disconnect_since ≡ some t
unfolding watches watch
watches-since [] w t quiet e = e
watches-since (i ∷ is) w t quiet e =
    watches-since is (watch i w) t (ground arith) (silent_since i w.0 t (ground arith) e)

silent_fences :
    (i : Input) (l : Listener) (f : Bool) (t : ℕ)
    → IsFenced (l, f)
    → is_silent i ≡ true
    → l.disconnect_since ≡ some t
    → t + l.failsafe_timeout ≤ i.now
    → i.dispatched ≡ true
    → i.paused ≡ true
    → (watch i (l, f)).1 ≡ true
unfolding watch poll
silent_fences i l f t v quiet since late d p = ground (arith, v.safe)

-- The fail-safe: if the scheduler answers at `before`, then never again, then a poll at least 60
-- seconds after the first failure whose pause succeeds leaves mining fenced off; so it also is if
-- pauses failed in between, or if one of them had succeeded already.
pub blackout_fences :
    (before : List Input) (first : Input) (between : List Input) (last : Input)
    → ((watches before (new_listener, false)).0).disconnect_since ≡ none
    → all is_silent (first ∷ between) ≡ true
    → is_silent last ≡ true
    → first.now + 60 ≤ last.now
    → last.dispatched ≡ true
    → last.paused ≡ true
    → (watch last (watches (first ∷ between) (watches before (new_listener, false)))).1 ≡ true
blackout_fences before first between last start quiet silent late d p =
    silent_fences last (w.0) (w.1) first.now safe silent since (omega (arith, timeout)) d p
  where
    w0 : Watch
    w0 = watches before (new_listener, false)

    w : Watch
    w = watches (first ∷ between) w0

    safe : IsFenced w
    safe =
        watches-IsFenced (first ∷ between) w0
          (watches-IsFenced before (new_listener, false) (unfold new_listener in ground arith))

    since : (w.0).disconnect_since ≡ some first.now
    since =
        unfold watches watch in
        watches-since between (watch first w0) first.now (ground arith)
          (silent_first first w0.0 (ground arith) start)

    timeout : (w.0).failsafe_timeout ≡ 60
    timeout =
        watches-timeout (first ∷ between) w0
        ∙ watches-timeout before (new_listener, false)
        ∙ (unfold new_listener in refl)

-- After the fail-safe the first answer AVAILABLE resumes inference, although the state applied
-- before the failure may have been AVAILABLE too.
failsafe_recovers :
    (i : Input) (l : Listener)
    → l.failsafe_triggered ≡ true
    → l.connected ≡ false
    → i.reply ≡ some gpu_state_available
    → i.dispatched ≡ true
    → ((poll i l).1 ≡ resume ∷ [])
      × ((poll i l).0.last_state ≡ some gpu_state_available)
      × ((poll i l).0.failsafe_triggered ≡ false)
      × ((poll i l).0.disconnect_since ≡ none)
unfolding poll
failsafe_recovers i l t c r d = ground arith
