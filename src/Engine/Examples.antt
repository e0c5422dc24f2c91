-- ===== src/Engine/Examples.antt =====
-- Lives of an engine, and the theorems about it at them.
use openmodel.Base.{
  ◌≡◌, ◌≢◌, ◌⊎◌, inl, refl, ℕ, List, [], ◌∷◌, ◌++◌, Option, none, some, true, false, total, bit,
  is_some,
}
use openmodel.Engine.State.{immediate, running, paused, starting, new_engine}
use openmodel.Engine.Moves.{
  top, woken, created, output, end_of_outputs, start_wait, pause_wait, resume_wait, request_begin,
  finished, destroying, by_start, start_done_wait,
}
use openmodel.Engine.Tasks.{advance}
use openmodel.Engine.Sections.{aborting}
use openmodel.Engine.System.{
  System, run, Reach, here, anything, init, Round, calls, runs, schedule, exec_task,
}
use openmodel.Engine.Phases.{timely, loads, acting, in_phase}
use openmodel.Engine.Schedules.{schedule-Reach, permits}
use openmodel.Engine.Guarantees.{rest_releases, load_finds_none, IsPausing, pending_pause_honoured}
use openmodel.Engine.Release.{is_resting}
use openmodel.Engine.Owners.{transition_owned}
use openmodel.Engine.Accounting.{active_requests_exact}
use openmodel.Engine.Lock.{lock_exclusive, holding}
use openmodel.Engine.Vram.{Sample}

abbrev pub one_gpu : Option (List ℕ)
one_gpu = some (0 ∷ [])

-- The engine is started, serves a request, and gets a second one.
abbrev pub serving : List Round
serving =
    calls (start_wait "llama")
    ∷ runs 0 woken
    ∷ runs 0 (created 7 (100 ∷ 101 ∷ []))
    ∷ runs 0 woken
    ∷ calls (request_begin true 1)
    ∷ runs 1 woken
    ∷ runs 1 output
    ∷ runs 1 end_of_outputs
    ∷ calls (request_begin false 2)
    ∷ runs 2 woken
    ∷ runs 2 output
    ∷ []

-- Then mining takes the GPU while the second request is served.
abbrev yielding : List Round
yielding =
    serving
    ++ calls (pause_wait immediate top)
      ∷ runs 3 woken
      ∷ runs 3 woken
      ∷ runs 3 woken
      ∷ runs 3 woken
      ∷ runs 3 woken
      ∷ []

-- Mining is done, and comes back during the reload.
abbrev pub returning : List Round
returning =
    yielding
    ++ calls (resume_wait top)
      ∷ runs 4 woken
      ∷ calls (pause_wait immediate top)
      ∷ runs 5 woken
      ∷ runs 4 woken
      ∷ runs 4 (created 8 (102 ∷ []))
      ∷ []

abbrev pub after : List Round → System
after rs = schedule rs (init one_gpu)

serving-Reach : Reach anything (init one_gpu) (after serving)
unfolding permits schedule init advance exec_task
serving-Reach = schedule-Reach anything _ _ serving here refl

yielding-Reach : Reach timely (init one_gpu) (after yielding)
unfolding permits schedule init advance exec_task
yielding-Reach = schedule-Reach timely _ _ yielding here refl

pub returning-Reach : Reach timely (init one_gpu) (after returning)
unfolding permits schedule init advance exec_task
returning-Reach = schedule-Reach timely _ _ returning here refl

active_requests_exact_example : (after serving).engine.active_requests ≡ 1
unfolding schedule init advance exec_task
active_requests_exact_example = active_requests_exact one_gpu serving-Reach

lock_exclusive_example : total holding (after serving).tasks ≡ bit (is_some (after serving).lock)
lock_exclusive_example = lock_exclusive one_gpu serving-Reach

yielding_ends : (after yielding).engine.state ≡ paused
unfolding schedule init advance exec_task
yielding_ends = refl

rest_releases_example :
    ((after yielding).engine.handle ≡ none) × ((after yielding).engine.child_pids ≡ [])
unfolding schedule init advance exec_task
rest_releases_example = rest_releases one_gpu yielding-Reach refl

transition_owned_example :
    total (acting loads) (after returning).tasks
    ≡ bit (in_phase loads (after returning).engine.state)
transition_owned_example = transition_owned one_gpu returning-Reach loads

-- The reload is about to build the engine.
abbrev reloading : List Round
reloading = yielding ++ calls (resume_wait top) ∷ runs 4 woken ∷ runs 4 woken ∷ []

reloading-Reach : Reach timely (init one_gpu) (after reloading)
unfolding permits schedule init advance exec_task
reloading-Reach = schedule-Reach timely _ _ reloading here refl

load_finds_none_example :
    ((after reloading).engine.handle ≡ none) × ((after reloading).engine.child_pids ≡ [])
unfolding schedule init advance exec_task
load_finds_none_example = load_finds_none one_gpu 4 reloading-Reach refl refl

-- A pause arrives while the engine starts, which ends its load.
abbrev pub starting_up : List Round
starting_up =
    calls (start_wait "llama")
    ∷ runs 0 woken
    ∷ calls (pause_wait immediate top)
    ∷ runs 1 woken
    ∷ runs 0 (created 7 (100 ∷ []))
    ∷ []

starting-Reach : Reach timely (init one_gpu) (after starting_up)
unfolding permits schedule init advance exec_task
starting-Reach = schedule-Reach timely _ _ starting_up here refl

abbrev pub started : System
started = record {
  engine = record (new_engine one_gpu) {
    model = "llama";
    state = starting;
    handle = some 7;
    child_pids = 100 ∷ [];
    accepting = true;
  };
  lock = some 0;
  tasks = destroying (aborting []) by_start ∷ finished ∷ [];
  exited = false;
}

pending_pause_honoured_example :
    (started.engine.state ≢ running)
    × (IsPausing started ⊎ (is_resting started.engine.state ≡ true))
unfolding new_engine schedule init advance exec_task
pending_pause_honoured_example =
    pending_pause_honoured one_gpu starting-Reach (inl refl)
      (run 0 woken start_done_wait refl refl refl)

abbrev sample : ℕ → Option ℕ → Sample
sample now r = record { now = now; free_ratio = r }

-- nvidia-smi fails twice, then answers.
abbrev samples : List Sample
samples =
    sample 0 none ∷ sample 1 none ∷ sample 2 (some 40) ∷ sample 3 none ∷ sample 20 (some 40) ∷ []
