-- ===== src/Service/Dispatch.antt =====
-- src/py-inference/src/scheduler_client/listener.py, with inference/engine_pool.py: the listener's thread
-- dispatches coroutines of the pool to the main loop, which starts them in order; `request_pause` alone
-- it calls itself. The API server calls `switch_model`. Between two calls of an engine a coroutine of the
-- pool waits, and all else may happen.
use openmodel.Base.{ℕ, List, [], ◌∷◌, ◌++◌, none, some, String, get_elem?, set}
use openmodel.Engine.State.{YieldUrgency}
use openmodel.Pool.State.{Pool, request_pause}
use openmodel.Pool.Fanout.{EngineCall, PoolTask, Turn, pause_all, resume_all, switch_all, continue}
use openmodel.Listener.Poll.{Listener, new_listener, Command, Input, poll, resume, pause}

-- A coroutine given to asyncio.run_coroutine_threadsafe.
pub data PoolCall : Type 0 where
  resumes_pool : PoolCall
  pauses_pool : YieldUrgency → PoolCall

-- `calls` is what the pool has called of its engines, in order.
pub record Service : Type 0 where
  pub listener : Listener
  pub pool : Pool
  pub queue : List PoolCall
  pub tasks : List PoolTask
  pub calls : List EngineCall

unfoldable pub new_service : Pool → Service
unfolding new_listener
new_service p = record { listener = new_listener; pool = p; queue = []; tasks = []; calls = [] }

pub data ServiceEvent : Type 0 where
  polls : Input → ServiceEvent
  -- The loop starts the coroutine dispatched first.
  starts : ServiceEvent
  -- What coroutine `k` of the pool awaits returns.
  returns : ℕ → ServiceEvent
  switches_to : String → ServiceEvent

-- What the listener's commands do.
unfoldable pub carry_out : Command → Service → Service
unfolding request_pause
carry_out resume s = record s { queue = s.queue ++ resumes_pool ∷ [] }
carry_out Command.request_pause s = record s { pool = request_pause s.pool }
carry_out (pause u) s = record s { queue = s.queue ++ pauses_pool u ∷ [] }

unfoldable pub carry_out_all : List Command → Service → Service
unfolding carry_out
carry_out_all [] s = s
carry_out_all (c ∷ cs) s = carry_out_all cs (carry_out c s)

-- A coroutine of the pool has begun.
abbrev begin : Turn → Service → Service
begin t s = record s { pool = t.pool; tasks = s.tasks ++ t.task ∷ []; calls = s.calls ++ t.calls }

first_turn : PoolCall → Pool → Turn
unfolding resume_all pause_all
first_turn resumes_pool p = resume_all p
first_turn (pauses_pool u) p = pause_all u p

unfoldable pub start_next : List PoolCall → Service → Service
unfolding first_turn
start_next [] s = s
start_next (q ∷ qs) s = begin (first_turn q s.pool) (record s { queue = qs })

unfoldable pub return_to : ℕ → PoolTask → Service → Service
unfolding continue
return_to k t s =
    let turn = continue t s.pool in
    record s { pool = turn.pool; tasks = set s.tasks k turn.task; calls = s.calls ++ turn.calls }

unfoldable pub service_event : ServiceEvent → Service → Service
unfolding poll carry_out_all start_next return_to switch_all
service_event (polls i) s =
    let (l, cs) = poll i s.listener in carry_out_all cs (record s { listener = l })
service_event starts s = start_next s.queue s
service_event (returns k) s = elim (get_elem? s.tasks k) [ none ↦ s | some t ↦ return_to k t s ]
service_event (switches_to path) s = begin (switch_all path s.pool) s

-- A run of the service.
unfoldable pub service_run : List ServiceEvent → Service → Service
unfolding service_event
service_run [] s = s
service_run (e ∷ es) s = service_run es (service_event e s)
