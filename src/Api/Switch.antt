-- ===== src/Api/Switch.antt =====
-- src/py-inference/src/inference/api_server.py: `_ensure_model_loaded`, which many requests run at
-- once, with the check of the model before and inside the switch lock; and how `switch_model` of
-- src/py-inference/src/inference/engine_pool.py may return.
use openmodel.Base.{
  ℕ, ◌+◌, Bool, not, ◌||◌, List, [], ◌∷◌, ◌++◌, Option, none, some, if◌then◌else◌, get_elem?, set,
  is_some,
}
use openmodel.Base.Text.{Text, codes, same}
use openmodel.Api.Names.{model_matches}

-- Where a request stands: about to start, at the lock, in `ensure_model`, in `switch_model` to a
-- path from the model served before. At the end it goes on because no switch was due or the switch
-- was made (served), or although the pool gave the switch up (unswitched); or `ensure_model`
-- (unfetched) or `switch_model` (failed) raised.
pub data SwitchPhase : Type 0 where
  asked at_lock fetching : SwitchPhase
  switching : Text → Text → SwitchPhase
  served unswitched unfetched failed : SwitchPhase

pub record SwitchTask : Type 0 where
  pub model : Text
  pub phase : SwitchPhase

-- The loop runs the task; `ensure_model` returns a path; the engine takes the new name while
-- `switch_model` runs, and its old name again if the new model does not load; `switch_model`
-- returns with the switch made; the pool's `switch_model` returns without it, since a pause was
-- requested; the awaited call raises.
pub data SwitchEvent : Type 0 where
  resumed renamed restored returned abandoned raised : SwitchEvent
  fetched : Text → SwitchEvent

-- `calls` counts the calls of `switch_model`.
pub record SwitchSystem : Type 0 where
  pub current : Text
  pub lock : Option ℕ
  pub calls : ℕ
  pub tasks : List SwitchTask

abbrev pub moved : SwitchSystem → ℕ → Text → SwitchPhase → SwitchSystem
moved s i m p = record s { tasks = set s.tasks i (record { model = m; phase = p }) }

-- The checks before the lock.
before_lock : Bool → Text → Text → Bool
before_lock has_manager current m =
    not has_manager || (same m (codes "default") || model_matches current m)

-- The section of the lock up to its first await.
enter_section : ℕ → Text → SwitchSystem → SwitchSystem
enter_section i m s =
    if is_some s.lock
    then s
    else if model_matches s.current m
    then moved s i m served
    else record (moved s i m fetching) { lock = some i }

-- One event at task `i`; an event that cannot happen where the task stands changes nothing.
unfoldable pub switch_event :
    Bool → ℕ → SwitchEvent → Text → SwitchPhase → SwitchSystem → SwitchSystem
unfolding before_lock enter_section
switch_event has_manager i resumed m asked s =
    moved s i m (if before_lock has_manager s.current m then served else at_lock)
switch_event has_manager i resumed m at_lock s = enter_section i m s
switch_event has_manager i (fetched path) m fetching s =
    record (moved s i m (switching path s.current)) { calls = s.calls + 1 }
switch_event has_manager i raised m fetching s = record (moved s i m unfetched) { lock = none }
switch_event has_manager i renamed m (switching path old) s = record s { current = path }
switch_event has_manager i restored m (switching path old) s = record s { current = old }
switch_event has_manager i returned m (switching path old) s = record (moved s i m served) {
  lock = none;
  current = path;
}
switch_event has_manager i abandoned m (switching path old) s = record (moved s i m unswitched) {
  lock = none;
}
switch_event has_manager i raised m (switching path old) s = record (moved s i m failed) {
  lock = none;
}
switch_event has_manager i _ m _ s = s

-- A request arrives for a model, or an event happens at a task.
pub data SwitchRound : Type 0 where
  arrives : Text → SwitchRound
  happens : ℕ → SwitchEvent → SwitchRound

unfoldable pub switch_round : Bool → SwitchRound → SwitchSystem → SwitchSystem
unfolding switch_event
switch_round has_manager (arrives m) s = record s {
  tasks = s.tasks ++ (record { model = m; phase = asked }) ∷ [];
}
switch_round has_manager (happens i e) s = elim (get_elem? s.tasks i) [
  | none ↦ s
  | some t ↦ switch_event has_manager i e t.model t.phase s
]

unfoldable pub switch_schedule : Bool → List SwitchRound → SwitchSystem → SwitchSystem
unfolding switch_round
switch_schedule has_manager [] s = s
switch_schedule has_manager (r ∷ rs) s =
    switch_schedule has_manager rs (switch_round has_manager r s)

-- The engine serves `current`, and no request is there.
unfoldable pub switch_init : Text → SwitchSystem
switch_init current = record { current = current; lock = none; calls = 0; tasks = [] }
