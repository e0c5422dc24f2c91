-- ===== src/Listener/Fence.antt =====
-- src/py-inference/src/scheduler_client/listener.py: mining is fenced off from inference when a
-- pause has completed and no resume was dispatched since.
use openmodel.Base.{
  ℕ, ◌≡◌, ◌≢◌, subst, ◌⊎◌, inl, inr, Bool, true, false, ◌||◌, List, [], ◌∷◌, Option, none, some,
  arith, Option-cases,
}
use openmodel.Listener.Poll.{
  Listener, Input, Command, resume, request_pause, pause, poll, new_listener, is_yield,
  yield_urgency, FutureState, reconnect, collect_resume, follow_state, poll_failed,
}

abbrev pub fence_by : Input → Command → Bool → Bool
fence_by i resume f = false
fence_by i request_pause f = f
fence_by i (pause u) f = i.paused || f

abbrev pub fence_all : Input → List Command → Bool → Bool
fence_all i [] f = f
fence_all i (c ∷ cs) f = fence_all i cs (fence_by i c f)

-- The listener and whether mining is fenced off, after a poll and after a series of polls.
abbrev pub Watch : Type 0
Watch = Listener × Bool

unfoldable pub watch : Input → Watch → Watch
watch i (l, f) = let (l', cs) = poll i l in (l', fence_all i cs f)

unfoldable pub watches : List Input → Watch → Watch
watches [] w = w
watches (i ∷ is) w = watches is (watch i w)

abbrev pub is_yield_state : Option ℕ → Bool
is_yield_state none = false
is_yield_state (some s) = is_yield s

-- A listener that has applied a yield, by the scheduler or by the fail-safe, has fenced mining off.
pub record IsFenced (w : Watch) : Type 0 where
  pub yielded : is_yield_state (w.0).last_state ≡ true → w.1 ≡ true
  pub safe : (w.0).failsafe_triggered ≡ true → w.1 ≡ true
  pub cut : (w.0).failsafe_triggered ≡ true → (w.0).connected ≡ false

reconnect-IsFenced :
    (l : Listener) (f : Bool)
    → IsFenced (l, f)
    → IsFenced (reconnect l, f) × ((reconnect l).failsafe_triggered ≡ false)
unfolding reconnect
reconnect-IsFenced l f v = ground arith

collect_resume-IsFenced :
    (x : FutureState) (l : Listener) (f : Bool)
    → IsFenced (l, f)
    → l.failsafe_triggered ≡ false
    → IsFenced (collect_resume x l, f) × ((collect_resume x l).failsafe_triggered ≡ false)
unfolding collect_resume
collect_resume-IsFenced x l f v off = ground arith

follow_state-IsFenced :
    (s : ℕ) (i : Input) (l : Listener) (f : Bool)
    → IsFenced (l, f)
    → l.failsafe_triggered ≡ false
    → let (l', cs) = follow_state s i l in IsFenced (l', fence_all i cs f)
unfolding follow_state
follow_state-IsFenced s i l f v off = ground arith

poll_failed-IsFenced :
    (i : Input) (l : Listener) (f : Bool)
    → IsFenced (l, f)
    → let (l', cs) = poll_failed i l in IsFenced (l', fence_all i cs f)
unfolding poll_failed
poll_failed-IsFenced i l f v = ground arith

pub watch-IsFenced : (i : Input) (w : Watch) → IsFenced w → IsFenced (watch i w)
unfolding watch poll
watch-IsFenced i (l, f) v = elim (Option-cases i.reply) [
  | inl lost ↦ rw (lost, poll) (poll_failed-IsFenced i l f v)
  | inr (s, heard) ↦
      rw (heard, poll)
        (let (u, off) = reconnect-IsFenced l f v in
          let (u', off') = collect_resume-IsFenced i.future (reconnect l) f u off in
          follow_state-IsFenced s i (collect_resume i.future (reconnect l)) f u' off')
]

pub watches-IsFenced : (is : List Input) (w : Watch) → IsFenced w → IsFenced (watches is w)
unfolding watches
watches-IsFenced [] w v = v
watches-IsFenced (i ∷ is) w v = watches-IsFenced is (watch i w) (watch-IsFenced i w v)

-- In every run of the listener, if the state applied last is a yield or the fail-safe has
-- triggered, then a pause has completed and no resume was dispatched after it.
pub yield_fenced :
    (is : List Input)
    → let (l, fenced) = watches is (new_listener, false) in
      ((is_yield_state l.last_state ≡ true) ⊎ (l.failsafe_triggered ≡ true)) → fenced ≡ true
unfolding new_listener
yield_fenced is (inl y) = (watches-IsFenced is (new_listener, false) (ground arith)).yielded y
yield_fenced is (inr t) = (watches-IsFenced is (new_listener, false) (ground arith)).safe t

-- In every run: when the scheduler answers with a yield while mining is not fenced off, the poll
-- commands the pause of that yield, after it has asked a running resume to stop, however often the
-- pause failed before; and if the pause succeeds, mining is fenced off and the state is recorded.
pub yield_pauses :
    (is : List Input) (i : Input) (s : ℕ)
    → (watches is (new_listener, false)).1 ≡ false
    → i.reply ≡ some s
    → is_yield s ≡ true
    → i.dispatched ≡ true
    → let l = (watches is (new_listener, false)).0 in
      let (l', fenced) = watch i (l, false) in
      ((poll i l).1 ≡ request_pause ∷ pause (yield_urgency s) ∷ [])
      × (i.paused ≡ true → (fenced ≡ true) × (l'.last_state ≡ some s))
      × (i.paused ≡ false → l'.last_state ≢ some s)
yield_pauses is i s open_ r y d = step (watches is (new_listener, false)).0 (
    subst (λ f. IsFenced ((watches is (new_listener, false)).0, f)) open_
      (watches-IsFenced is (new_listener, false) (unfold new_listener in ground arith)))
  where
    step :
        (l : Listener)
        → IsFenced (l, false)
        → let (l', fenced) = watch i (l, false) in
          ((poll i l).1 ≡ request_pause ∷ pause (yield_urgency s) ∷ [])
          × (i.paused ≡ true → (fenced ≡ true) × (l'.last_state ≡ some s))
          × (i.paused ≡ false → l'.last_state ≢ some s)
    step l v = unfold watch poll in ground arith
