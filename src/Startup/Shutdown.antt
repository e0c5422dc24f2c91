-- ===== src/Startup/Shutdown.antt =====
-- src/py-inference/src/main.py: the `finally` of `main`, when the API server has ended.
use openmodel.Base.{◌≡◌, refl, ℕ, List, [], ◌∷◌, ◌++◌, map, none, some}
use openmodel.Pool.Fanout.{EngineCall, stops, stop_all, indices}
use openmodel.Listener.Client.{SchedulerClient, close}
use openmodel.Startup.Boot.{Booted}

-- In order: the listener's thread is stopped, a channel is closed, an engine is called.
pub data ShutdownCall : Type 0 where
  stops_listener : ShutdownCall
  closes : ℕ → ShutdownCall
  calls_engine : EngineCall → ShutdownCall

unfoldable pub shutdown : Booted → SchedulerClient → List ShutdownCall
unfolding close stop_all
shutdown b c =
    elim b.listener [ none ↦ [] | some l ↦ stops_listener ∷ map closes (close c) ]
    ++ map calls_engine (stop_all b.pool).calls

-- However the process came up, every engine of the pool is stopped, last of all and once.
shutdown_lem :
    (b : Booted) (c : SchedulerClient)
    → (before : List ShutdownCall) × (shutdown b c
        ≡ before ++ map calls_engine (map stops (indices b.pool)))
unfolding shutdown stop_all
shutdown_lem b c = (_, refl)
