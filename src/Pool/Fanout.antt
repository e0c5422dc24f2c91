-- ===== src/Pool/Fanout.antt =====
-- src/py-inference/src/inference/engine_pool.py: `pause`, `resume`, `stop` and `switch_model`, which
-- call the engines. Between two of these calls the pool waits, and a pause may arrive.
use openmodel.Base.{
  range_from, ℕ, suc, true, false, List, [], ◌∷◌, ◌++◌, map, String, length, if◌then◌else◌, ltb,
}
use openmodel.Engine.State.{YieldUrgency}
use openmodel.Pool.State.{Pool, tensor_parallel, multi_instance, request_pause}

-- A call of an engine's coroutine, by the engine's index.
pub data EngineCall : Type 0 where
  pauses : YieldUrgency → ℕ → EngineCall
  resumes : ℕ → EngineCall
  stops : ℕ → EngineCall
  switches : String → ℕ → EngineCall

-- Where a coroutine of the pool stands: before engine `i`, or waiting for all calls of a gather.
pub data PoolTask : Type 0 where
  resume_at : ℕ → PoolTask
  switch_at : String → ℕ → PoolTask
  gathering switch_gathering : PoolTask
  finished : PoolTask

pub record Turn : Type 0 where
  pub pool : Pool
  pub task : PoolTask
  pub calls : List EngineCall

abbrev pub indices : Pool → List ℕ
indices p = range_from 0 (length p.engines)

-- `pause`: every engine, at once.
unfoldable pub pause_all : YieldUrgency → Pool → Turn
unfolding request_pause
pause_all u p = record {
  pool = request_pause p;
  task = gathering;
  calls = map (pauses u) (indices p);
}

unfoldable pub stop_all : Pool → Turn
stop_all p = record { pool = p; task = gathering; calls = map stops (indices p) }

-- The loop of `resume` at engine `i`.
unfoldable pub resume_from : ℕ → Pool → Turn
resume_from i p =
    if ltb i (length p.engines)
    then if p.pause_requested
      then record { pool = p; task = finished; calls = [] }
      else record { pool = p; task = resume_at (suc i); calls = resumes i ∷ [] }
    else record { pool = p; task = finished; calls = [] }

unfoldable pub resume_all : Pool → Turn
unfolding resume_from
resume_all p = elim p.mode [
  | multi_instance ↦ resume_from 0 (record p { pause_requested = false })
  | tensor_parallel ↦ record {
    pool = record p { pause_requested = false };
    task = gathering;
    calls = map resumes (indices p);
  }
]

-- The `finally` of `switch_model`.
abbrev switch_end : Pool → Turn
switch_end p = record { pool = record p { switching = false }; task = finished; calls = [] }

-- The loop of `switch_model` at engine `i`.
unfoldable pub switch_from : String → ℕ → Pool → Turn
switch_from path i p =
    if ltb i (length p.engines)
    then if p.pause_requested
      then switch_end p
      else record { pool = p; task = switch_at path (suc i); calls = switches path i ∷ [] }
    else switch_end p

unfoldable pub switch_all : String → Pool → Turn
unfolding switch_from
switch_all path p = elim p.mode [
  | multi_instance ↦ switch_from path 0 (record p { switching = true })
  | tensor_parallel ↦ record {
    pool = record p { switching = true };
    task = switch_gathering;
    calls = map (switches path) (indices p);
  }
]

-- The awaited call returned.
unfoldable pub continue : PoolTask → Pool → Turn
unfolding resume_from switch_from
continue (resume_at i) p = resume_from i p
continue (switch_at path i) p = switch_from path i p
continue gathering p = record { pool = p; task = finished; calls = [] }
continue switch_gathering p = switch_end p
continue finished p = record { pool = p; task = finished; calls = [] }

-- What happens while the pool waits: its call returns, or a pause is requested.
pub data Event : Type 0 where
  call_returns pause_arrives : Event

unfoldable pub react : Event → PoolTask → Pool → Turn
unfolding continue request_pause
react call_returns t p = continue t p
react pause_arrives t p = record { pool = request_pause p; task = t; calls = [] }

-- All that a coroutine does over a series of events.
unfoldable pub follow : List Event → Turn → Turn
unfolding react
follow [] t = t
follow (e ∷ es) t =
    let next = react e t.task t.pool in follow es (record next { calls = t.calls ++ next.calls })
