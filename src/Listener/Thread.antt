-- ===== src/Listener/Thread.antt =====
-- src/py-inference/src/scheduler_client/listener.py: `start`, `stop` and the loop of `_run`, which polls while
-- the listener is running and drops what a poll raises.
use openmodel.Base.{◌≡◌, refl, ap, Bool, true, false, List, [], ◌∷◌, ◌++◌, map}
use openmodel.Listener.Poll.{Listener, Command, Input, poll, polls}

-- What the thread meets: a poll, or the main thread's `stop`.
pub data ThreadEvent : Type 0 where
  turns : Input → ThreadEvent
  stops_thread : ThreadEvent

pub record ListenerThread : Type 0 where
  pub listener : Listener
  pub running : Bool

unfoldable pub start_thread : Listener → ListenerThread
start_thread l = record { listener = l; running = true }

unfoldable pub thread_event : ThreadEvent → ListenerThread → ListenerThread × List Command
unfolding poll
thread_event (turns i) t = elim t.running [
  | false ↦ (t, [])
  | true ↦ let (l, cs) = poll i t.listener in (record t { listener = l }, cs)
]
thread_event stops_thread t = (record t { running = false }, [])

unfoldable pub thread_run : List ThreadEvent → ListenerThread → ListenerThread × List Command
unfolding thread_event
thread_run [] t = (t, [])
thread_run (e ∷ es) t =
    let (t', cs) = thread_event e t in let (t'', cs') = thread_run es t' in (t'', cs ++ cs')

stopped_silent :
    (es : List ThreadEvent) (l : Listener)
    → thread_run es (record { listener = l; running = false })
      ≡ (record { listener = l; running = false }, [])
unfolding thread_run
stopped_silent [] l = refl
stopped_silent (turns i ∷ es) l = rw (stopped_silent es l) refl
stopped_silent (stops_thread ∷ es) l = rw (stopped_silent es l) refl

-- The thread gives the commands of the polls before `stop`, and none after it.
thread_run_lem :
    (is : List Input) (es : List ThreadEvent) (l : Listener)
    → (thread_run (map turns is ++ stops_thread ∷ es) (start_thread l)).1 ≡ (polls is l).1
unfolding thread_run start_thread polls
thread_run_lem [] es l = ap (λ x. x.1) (stopped_silent es l)
thread_run_lem (i ∷ is) es l = ap (λ cs. (poll i l).1 ++ cs) (thread_run_lem is es (poll i l).0)
