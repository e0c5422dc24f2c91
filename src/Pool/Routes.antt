-- ===== src/Pool/Routes.antt =====
-- src/py-inference/src/inference/engine_pool.py: where `generate` and `generate_stream` send a request, and
-- `current_model` and `detailed_status`.
use openmodel.Base.{
  ◌≡◌, refl, ap, ◌∙◌, ℕ, zero, suc, ◌+◌, List, [], ◌∷◌, Option, none, some, String, length, total,
  arith, get_elem?,
}
use openmodel.Engine.State.{VllmEngine, EngineState, GpuId, EngineStatus, status}
use openmodel.Pool.State.{Pool, Mode, Strategy, tensor_parallel, multi_instance}
use openmodel.Pool.Pick.{pick_engine, Candidate}

first_engine : Pool → Option (ℕ × Pool)
first_engine p = elim p.engines [ [] ↦ none | e ∷ es ↦ some (0, p) ]

routed : Option (Candidate × Pool) → Option (ℕ × Pool)
routed none = none
routed (some (c, p)) = some (c.index, p)

-- The engine, and the pool with the session's pin; `none`: an exception. The session key goes no further.
unfoldable pub route : Pool → Option String → ℕ → Option (ℕ × Pool)
unfolding first_engine routed
route p key now = elim p.mode [
  | tensor_parallel ↦ first_engine p
  | multi_instance ↦ routed (pick_engine p key now)
]

unfoldable pub current_model : Pool → String
current_model p = elim p.engines [ [] ↦ "" | e ∷ es ↦ e.model ]

pub record EngineRow : Type 0 where
  pub index : ℕ
  pub gpu_id : GpuId
  pub state : EngineState
  pub active_requests : ℕ
  pub loaded_model : String

abbrev pub row : ℕ → EngineStatus → EngineRow
row i s = record {
  index = i;
  gpu_id = s.gpu_id;
  state = s.state;
  active_requests = s.active_requests;
  loaded_model = s.loaded_model;
}

unfoldable pub rows : ℕ → List VllmEngine → List EngineRow
unfolding status
rows i [] = []
rows i (e ∷ es) = row i (status e) ∷ rows (suc i) es

pub record DetailedStatus : Type 0 where
  pub mode : Mode
  pub engine_count : ℕ
  pub lb_strategy : Strategy
  pub engines : List EngineRow

unfoldable pub detailed_status : Pool → DetailedStatus
unfolding rows
detailed_status p = record {
  mode = p.mode;
  engine_count = length p.engines;
  lb_strategy = p.lb_strategy;
  engines = rows 0 p.engines;
}

-- Row `i` is that of engine `i`.
row_at :
    (es : List VllmEngine) (k i : ℕ) {e : VllmEngine}
    → get_elem? es i ≡ some e
    → get_elem? (rows k es) i ≡ some (row (k + i) (status e))
unfolding rows
row_at [] k i h = absurd (ground arith)
row_at (x ∷ es) k zero {e} h = ground arith
row_at (x ∷ es) k (suc i) {e} h =
    row_at es (suc k) i h ∙ ap (λ n. some (row n (status e))) (omega arith)

-- The rows carry the active requests of the aggregate.
rows-total :
    (es : List VllmEngine) (k : ℕ)
    → total (λ r. r.active_requests) (rows k es) ≡ total (λ e. e.active_requests) es
unfolding rows status
rows-total [] k = refl
rows-total (e ∷ es) k = omega (arith, rows-total es (suc k))
