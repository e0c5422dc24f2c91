-- ===== src/Pool/Report.antt =====
-- src/py-inference/src/inference/engine_pool.py: what `status` and `is_available` tell the gateway
-- of a pool of several engines.
use openmodel.Base.{
  ◌≡◌, ◌↔◌, ◌⊎◌, refl, ap, subst, Bool, true, false, ◌&&◌, List, [], ◌∷◌, map, some, any, all,
  total, arith, Bool-cases, inl, inr,
}
use openmodel.Engine.State.{
  VllmEngine, EngineState, EngineStatus, running, loading, dead, is_running, is_available, status,
}
use openmodel.Pool.State.{
  Pool, multi_instance, pool_status, any_available, status_many, is_dead_status,
}

abbrev pub is_dead_engine : VllmEngine → Bool
is_dead_engine e = elim e.state [ EngineState.dead ↦ true | _ ↦ false ]

any_running :
    (es : List VllmEngine)
    → any (λ s. is_running s.state) (map status es) ≡ any (λ e. is_running e.state) es
unfolding status
any_running [] = refl
any_running (e ∷ es) = ground (arith, any_running es)

all_dead : (es : List VllmEngine) → all is_dead_status (map status es) ≡ all is_dead_engine es
unfolding status
all_dead [] = refl
all_dead (e ∷ es) = ap (λ b. is_dead_engine e && b) (all_dead es)

total_active :
    (es : List VllmEngine)
    → total (λ s. s.active_requests) (map status es) ≡ total (λ e. e.active_requests) es
unfolding status
total_active [] = refl
total_active (e ∷ es) = omega (arith, total_active es)

abbrev Reports : Bool → List EngineStatus → EngineStatus → Type 0
Reports switching ss s =
    ((s.state ≡ running) ↔ ((switching ≡ false) × (any (λ t. is_running t.state) ss ≡ true)))
    × ((s.state ≡ dead) ↔ (
        (switching ≡ false)
        × (any (λ t. is_running t.state) ss ≡ false)
        × (all is_dead_status ss ≡ true)))
    × ((s.state ≡ loading) ↔ (switching ≡ true))
    × (s.active_requests ≡ total (λ t. t.active_requests) ss)

status_many-Reports :
    (switching : Bool) (ss : List EngineStatus) → Reports switching ss (status_many switching ss)
unfolding status_many
status_many-Reports switching ss = (
  (λ h. (ground arith, ground arith), λ h. ground arith),
  (λ h. (ground arith, ground arith, ground arith), λ h. ground arith),
  (λ h. ground arith, λ h. ground arith),
  refl,
)

abbrev Tells : Pool → EngineStatus → Type 0
Tells p s =
    ((s.state ≡ running)
      ↔ ((p.switching ≡ false) × (any (λ e. is_running e.state) p.engines ≡ true)))
    × ((s.state ≡ dead) ↔ (
        (p.switching ≡ false)
        × (any (λ e. is_running e.state) p.engines ≡ false)
        × (all is_dead_engine p.engines ≡ true)))
    × ((s.state ≡ loading) ↔ (p.switching ≡ true))
    × (s.active_requests ≡ total (λ e. e.active_requests) p.engines)

-- A pool of several engines reports RUNNING exactly when no switch is under way and some engine
-- runs, DEAD exactly when no switch is under way, no engine runs and all are dead, and LOADING
-- exactly during a switch; the active requests are those of all engines.
pub status_reports :
    (p : Pool) {s : EngineStatus}
    → p.mode ≡ multi_instance
    → pool_status p ≡ some s
    → ((s.state ≡ running)
        ↔ ((p.switching ≡ false) × (any (λ e. is_running e.state) p.engines ≡ true)))
      × ((s.state ≡ dead) ↔ (
          (p.switching ≡ false)
          × (any (λ e. is_running e.state) p.engines ≡ false)
          × (all is_dead_engine p.engines ≡ true)))
      × ((s.state ≡ loading) ↔ (p.switching ≡ true))
      × (s.active_requests ≡ total (λ e. e.active_requests) p.engines)
unfolding pool_status
status_reports p {s} m e = subst (Tells p) same (
    rw (← any_running p.engines, ← all_dead p.engines, ← total_active p.engines)
      (status_many-Reports p.switching (map status p.engines)))
  where
    same : status_many p.switching (map status p.engines) ≡ s
    same = ground arith

some_running :
    (es : List VllmEngine) → any is_available es ≡ true → any (λ e. is_running e.state) es ≡ true
unfolding is_available
some_running [] h = cc
some_running (e ∷ es) h = ground (arith, some_running es)

-- An available pool says that it runs, unless a switch is under way.
available_runs :
    (p : Pool) {s : EngineStatus}
    → p.mode ≡ multi_instance
    → pool_status p ≡ some s
    → any_available p ≡ true
    → (s.state ≡ running) ⊎ ((s.state ≡ loading) × (p.switching ≡ true))
unfolding any_available
available_runs p m e serves =
    let (r, _, l, _) = status_reports p m e in
    elim (Bool-cases p.switching) [
      | inl t ↦ inr (l.1 t, t)
      | inr t ↦ inl (r.1 (t, some_running p.engines serves))
    ]
