-- ===== src/Listener/Poll.antt =====
-- src/py-inference/src/scheduler_client/listener.py: SchedulerListener as a function of what one
-- poll meets: the scheduler's answer, the clock, and whether the engine's coroutines succeed. Time is
-- a number of the clock's units; a GPU state is the number of the protocol.
use openmodel.Base.{
  ℕ, ◌-◌, Bool, true, false, ◌&&◌, ◌||◌, not, List, [], ◌∷◌, ◌++◌, Option, none, some,
  if◌then◌else◌, leb, ◌==◌,
}
use openmodel.Engine.State.{YieldUrgency, normal, immediate}

abbrev pub gpu_state_available : ℕ
gpu_state_available = 1

abbrev pub gpu_state_yielding : ℕ
gpu_state_yielding = 2

abbrev pub gpu_state_window_post : ℕ
gpu_state_window_post = 3

abbrev pub gpu_state_winning_post : ℕ
gpu_state_winning_post = 4

-- `state in _YIELD_STATES`.
abbrev pub is_yield : ℕ → Bool
is_yield s = s == gpu_state_yielding || (s == gpu_state_window_post || s == gpu_state_winning_post)

-- `_proto_urgency_to_engine`: 2 is IMMEDIATE, all else is NORMAL.
unfoldable pub proto_urgency_to_engine : ℕ → YieldUrgency
proto_urgency_to_engine u = if u == 2 then immediate else normal

pub record Listener : Type 0 where
  pub last_state : Option ℕ
  pub connected : Bool
  pub disconnect_since : Option ℕ
  pub failsafe_timeout : ℕ
  pub failsafe_triggered : Bool
  pub resume_future : Bool  -- `_resume_future is not None`

-- `SchedulerListener.__init__`, with 60 seconds for the fail-safe.
unfoldable pub new_listener : Listener
new_listener = record {
  last_state = none;
  connected = true;
  disconnect_since = none;
  failsafe_timeout = 60;
  failsafe_triggered = false;
  resume_future = false;
}

-- What the listener asks of the engine pool.
pub data Command : Type 0 where
  resume request_pause : Command
  pause : YieldUrgency → Command

-- How the resume that runs in the background stands.
pub data FutureState : Type 0 where
  pending succeeded raised : FutureState

-- What one poll meets. `reply` is none if the call of the scheduler raises; `dispatched` is false if
-- the call cannot be put on the engine's loop; `paused` is false if `pause` raises or times out.
pub record Input : Type 0 where
  pub reply : Option ℕ
  pub now : ℕ
  pub future : FutureState
  pub dispatched : Bool
  pub paused : Bool

-- The listener, what `_apply_state` returns, and the commands that it gave.
pub record Applied : Type 0 where
  pub listener : Listener
  pub done : Bool
  pub commands : List Command

abbrev pub yield_urgency : ℕ → YieldUrgency
yield_urgency s = if s == gpu_state_yielding then normal else immediate

apply_resume : Input → Listener → Applied
apply_resume i l =
    if i.dispatched
    then record {
      listener = record l { resume_future = true };
      done = true;
      commands = resume ∷ [];
    }
    else record { listener = l; done = false; commands = [] }

apply_pause : ℕ → Input → Listener → Applied
apply_pause s i l =
    if not i.dispatched
    then record { listener = l; done = false; commands = request_pause ∷ [] }
    else if i.paused
    then record {
      listener = record l { resume_future = false };
      done = true;
      commands = request_pause ∷ pause (yield_urgency s) ∷ [];
    }
    else record {
      listener = l;
      done = false;
      commands = request_pause ∷ pause (yield_urgency s) ∷ [];
    }

-- `_apply_state`.
unfoldable pub apply_state : ℕ → Input → Listener → Applied
unfolding apply_resume apply_pause
apply_state s i l =
    if s == gpu_state_available
    then apply_resume i l
    else if is_yield s
    then apply_pause s i l
    else record { listener = l; done = false; commands = [] }

elapsed : ℕ → Option ℕ → ℕ
elapsed now none = 0
elapsed now (some t) = now - t

abbrev or_else : Option ℕ → ℕ → Option ℕ
or_else none now = some now
or_else (some t) now = some t

-- The fail-safe is applied only if its pause succeeded.
failsafe : Input → Listener → Listener × List Command
unfolding apply_state
failsafe i l =
    let a = apply_state gpu_state_window_post i l in
    (
      if a.done
          then record (a.listener) {
            failsafe_triggered = true;
            last_state = some gpu_state_window_post;
          }
          else a.listener,
      a.commands,
    )

-- The scheduler cannot be reached.
unfoldable pub poll_failed : Input → Listener → Listener × List Command
unfolding elapsed failsafe
poll_failed i l =
    let since = or_else l.disconnect_since i.now in
    let l' = record l { connected = false; disconnect_since = since } in
    if not l.failsafe_triggered && leb l.failsafe_timeout (elapsed i.now since)
    then failsafe i l'
    else (l', [])

-- The first answer after a failure.
unfoldable pub reconnect : Listener → Listener
reconnect l =
    if l.connected
    then l
    else if l.failsafe_triggered
    then record l {
      connected = true;
      disconnect_since = none;
      failsafe_triggered = false;
      last_state = none;
    }
    else record l { connected = true; disconnect_since = none }

abbrev pub is_state : Option ℕ → ℕ → Bool
is_state none s = false
is_state (some t) s = t == s

-- A background resume that has ended; if it raised, the state is applied again.
unfoldable pub collect_resume : FutureState → Listener → Listener
collect_resume pending l = l
collect_resume succeeded l = record l { resume_future = false }
collect_resume raised l =
    if l.resume_future && is_state l.last_state gpu_state_available
    then record l { resume_future = false; last_state = none }
    else record l { resume_future = false }

-- The change of state, if there is one.
unfoldable pub follow_state : ℕ → Input → Listener → Listener × List Command
unfolding apply_state
follow_state s i l =
    if is_state l.last_state s
    then (l, [])
    else (let a = apply_state s i l in
        (if a.done then record (a.listener) { last_state = some s } else a.listener, a.commands))

-- `_poll`.
unfoldable pub poll : Input → Listener → Listener × List Command
unfolding poll_failed reconnect collect_resume follow_state
poll i l = elim i.reply [
  | none ↦ poll_failed i l
  | some s ↦ follow_state s i (collect_resume i.future (reconnect l))
]

-- `_run`, poll by poll, with all commands in order.
unfoldable pub polls : List Input → Listener → Listener × List Command
unfolding poll
polls [] l = (l, [])
polls (i ∷ is) l = let (l', cs) = poll i l in let (l'', cs') = polls is l' in (l'', cs ++ cs')
