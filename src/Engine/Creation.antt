-- ===== src/Engine/Creation.antt =====
-- src/py-inference/src/inference/engine.py: `_create_engine`, with the engines of one process, its
-- environment and its subprocesses. The engines share the class-wide creation lock, the variable
-- CUDA_VISIBLE_DEVICES and what multiprocessing.active_children() lists.
use openmodel.Base.{
  Bool, true, false, not, ◌&&◌, ℕ, List, [], ◌∷◌, map, Option, none, some, if◌then◌else◌, ltb, ◌==◌,
  get_elem?, set, filter, member, all, is_some, ◌≡◌,
}
use openmodel.Engine.State.{VllmEngine, new_engine}
use openmodel.Engine.Sections.{reaping, destroy_step}

-- A live subprocess: its pid, the index of the engine whose construction started it, and the devices
-- that its environment showed it at its start.
pub record Child : Type 0 where
  pub pid : ℕ
  pub spawner : ℕ
  pub visible : Option (List ℕ)

-- The `async with` block of `_create_engine` in progress: the engine and its snapshot.
pub record CreateSection : Type 0 where
  pub creator : ℕ
  pub pre_existing : List ℕ

pub record EngineProcess : Type 0 where
  pub engines : List VllmEngine
  pub section : Option CreateSection
  pub cuda_visible_devices : Option (List ℕ)
  pub children : List Child

pub data ProcessEvent : Type 0 where
  -- Engine `i` takes the creation lock; whether active_children() answers.
  enters : ℕ → Bool → ProcessEvent
  -- `_create_engine_inner` starts a subprocess.
  spawns : ℕ → ProcessEvent
  -- `from_engine_args` returns this engine; whether active_children() answers.
  creates : ℕ → Bool → ProcessEvent
  -- `_create_engine_inner` raises.
  raises : ProcessEvent
  -- A subprocess ends.
  dies : ℕ → ProcessEvent
  -- `_destroy_engine` of engine `i` kills the subprocesses of the engine and forgets them,
  -- if there is an engine object.
  reaps : ℕ → ProcessEvent

abbrev pub pids_of : List Child → List ℕ
pids_of cs = map (λ c. c.pid) cs

-- `a - b` on sets.
abbrev pub minus : List ℕ → List ℕ → List ℕ
minus a b = filter (λ x. not (member x b)) a

unfoldable pub enter_creation : ℕ → Bool → VllmEngine → EngineProcess → EngineProcess
enter_creation i listed e p = record p {
  section = some (record { creator = i; pre_existing = if listed then pids_of p.children else [] });
  cuda_visible_devices = elim e.device_ids [ none ↦ p.cuda_visible_devices | some ds ↦ some ds ];
}

unfoldable pub new_child : ℕ → CreateSection → EngineProcess → EngineProcess
new_child pid c p = record p {
  children =
      record { pid = pid; spawner = c.creator; visible = p.cuda_visible_devices } ∷ p.children;
}

unfoldable pub leave_creation :
    ℕ → Bool → CreateSection → VllmEngine → EngineProcess → EngineProcess
leave_creation h listed c e p = record p {
  engines = set p.engines c.creator (record e {
    handle = some h;
    child_pids = if listed then minus (pids_of p.children) c.pre_existing else [];
  });
  section = none;
}

unfoldable pub reap_engine : ℕ → VllmEngine → EngineProcess → EngineProcess
unfolding destroy_step
reap_engine i e p = record p {
  engines = set p.engines i (destroy_step (reaping e.child_pids) (record e { handle = none })).0;
  children = filter (λ c. not (member c.pid e.child_pids)) p.children;
}

-- What an event leaves; `none`: it cannot happen here.
unfoldable pub process_event : ProcessEvent → EngineProcess → Option EngineProcess
unfolding enter_creation new_child leave_creation reap_engine
process_event (enters i listed) p = elim p.section [
  | some c ↦ none
  | none ↦ elim (get_elem? p.engines i) [
    | none ↦ none
    | some e ↦ some (enter_creation i listed e p)
  ]
]
process_event (spawns pid) p = elim p.section [ none ↦ none | some c ↦ some (new_child pid c p) ]
process_event (creates h listed) p = elim p.section [
  | none ↦ none
  | some c ↦ elim (get_elem? p.engines c.creator) [
    | none ↦ none
    | some e ↦ some (leave_creation h listed c e p)
  ]
]
process_event raises p = elim p.section [
  | none ↦ none
  | some c ↦ some (record p { section = none })
]
process_event (dies pid) p =
    some (record p { children = filter (λ c. not (c.pid == pid)) p.children })
process_event (reaps i) p = elim (get_elem? p.engines i) [
  | none ↦ none
  | some e ↦ elim e.handle [ none ↦ none | some h ↦ some (reap_engine i e p) ]
]

-- `max_position_embeddings` of the model's configuration; `none`: it has none, or reading it raised.
unfoldable pub effective_max_model_len : ℕ → Option ℕ → ℕ
effective_max_model_len configured none = configured
effective_max_model_len configured (some n) =
    if not (n == 0) && ltb n configured then n else configured

-- There is no engine object, and the engine has recorded no subprocess.
abbrev pub is_empty_engine : VllmEngine → Bool
is_empty_engine e = not (is_some e.handle) && elim e.child_pids [ [] ↦ true | _ ∷ _ ↦ false ]

-- A pid that no set of the process names.
abbrev pub is_unknown : ℕ → EngineProcess → Bool
is_unknown pid p =
    not (member pid (pids_of p.children))
    && (all (λ e. not (member pid e.child_pids)) p.engines
        && elim p.section [ none ↦ true | some c ↦ not (member pid c.pre_existing) ])

-- What the process may rely on. active_children() answers; an engine enters with no engine object and no
-- subprocess; a new subprocess has a pid that is not in use; a construction that raises leaves no
-- subprocess of its own.
abbrev pub documented : ProcessEvent → EngineProcess → Bool
documented (enters i listed) p =
    listed && elim (get_elem? p.engines i) [ none ↦ true | some e ↦ is_empty_engine e ]
documented (spawns pid) p = is_unknown pid p
documented (creates h listed) p = listed
documented raises p = elim p.section [
  | none ↦ true
  | some c ↦ all (λ x. member x.pid c.pre_existing) p.children
]
documented (dies pid) p = true
documented (reaps i) p = true

pub data Happens (p : EngineProcess) : EngineProcess → Type 0 where
  begun : Happens p p
  happens_next :
      {q r : EngineProcess} (ev : ProcessEvent)
      → Happens p q
      → documented ev q ≡ true
      → process_event ev q ≡ some r
      → Happens p r

-- A process with an engine for each entry, before any of them starts.
abbrev pub new_process : List (Option (List ℕ)) → Option (List ℕ) → EngineProcess
new_process device_ids env = record {
  engines = map new_engine device_ids;
  section = none;
  cuda_visible_devices = env;
  children = [];
}
