-- ===== src/Engine/Kills.antt =====
-- src/py-inference/src/inference/engine.py: several engines in one process: whose subprocesses a destroyed
-- engine kills, and which GPUs they see.
use openmodel.Base.{
  ◌≡◌, ◌↔◌, ◌≢◌, ◌≤◌, ap, ◌∙◌, sym, subst, arith, true, false, not, ℕ, List, Option, none, some,
  ◌==◌, get_elem?, filter, filter_ext, member, All, All-map, Option-cases, inl, inr,
}
use openmodel.Engine.State.{VllmEngine}
use openmodel.Engine.Creation.{
  Child, EngineProcess, ProcessEvent, enters, spawns, creates, raises, dies, reaps,
  effective_max_model_len, process_event, new_process, reap_engine, documented, Happens, begun,
  happens_next,
}
use openmodel.Engine.Children.{
  is_creator, IsAttributed, enter-IsAttributed, spawn-IsAttributed, leave-IsAttributed,
  raise-IsAttributed, die-IsAttributed, reap-IsAttributed,
}

event-IsAttributed :
    (ev : ProcessEvent) (p q : EngineProcess)
    → documented ev p ≡ true
    → process_event ev p ≡ some q
    → IsAttributed p
    → IsAttributed q
unfolding process_event
event-IsAttributed (enters i false) p q ok h v = absurd (ground arith)
event-IsAttributed (enters i true) p q ok h v = elim (Option-cases p.section) [
  | inr (s, es) ↦ absurd (ground arith)
  | inl es ↦ elim (Option-cases (get_elem? p.engines i)) [
    | inl e ↦ absurd (ground arith)
    | inr (e, at) ↦
        subst IsAttributed (ground arith) (enter-IsAttributed p v i e es at (ground arith))
  ]
]
event-IsAttributed (spawns pid) p q ok h v = elim (Option-cases p.section) [
  | inl es ↦ absurd (ground arith)
  | inr (s, es) ↦ subst IsAttributed (ground arith) (spawn-IsAttributed p v pid s es ok)
]
event-IsAttributed (creates n false) p q ok h v = absurd (ground arith)
event-IsAttributed (creates n true) p q ok h v = elim (Option-cases p.section) [
  | inl es ↦ absurd (ground arith)
  | inr (s, es) ↦ elim (Option-cases (get_elem? p.engines s.creator)) [
    | inl e ↦ absurd (ground arith)
    | inr (e, at) ↦ subst IsAttributed (ground arith) (leave-IsAttributed p v n s e es at)
  ]
]
event-IsAttributed raises p q ok h v = elim (Option-cases p.section) [
  | inl es ↦ absurd (ground arith)
  | inr (s, es) ↦ subst IsAttributed (ground arith) (raise-IsAttributed p v s es (ground arith))
]
event-IsAttributed (dies pid) p q ok h v =
    subst IsAttributed (ground arith) (die-IsAttributed p v pid)
event-IsAttributed (reaps i) p q ok h v = elim (Option-cases (get_elem? p.engines i)) [
  | inl e ↦ absurd (ground arith)
  | inr (e, at) ↦ subst IsAttributed (ground arith) (reap-IsAttributed p v i e at)
]

Happens-IsAttributed : {p q : EngineProcess} → Happens p q → IsAttributed p → IsAttributed q
Happens-IsAttributed begun v = v
Happens-IsAttributed (happens_next {q} {r} ev past ok h) v =
    event-IsAttributed ev q r ok h (Happens-IsAttributed past v)

new-IsAttributed :
    (devices : List (Option (List ℕ))) (env : Option (List ℕ))
    → IsAttributed (new_process devices env)
new-IsAttributed devices env = record {
  attributed = λ j e at. ground arith;
  creating = λ s e es. absurd (ground arith);
  fresh = λ s es. absurd (ground arith);
}

-- The subprocesses of an engine against those of the process.
abbrev pub Serves : ℕ → VllmEngine → Child → Type 0
Serves j e c =
    ((member c.pid e.child_pids ≡ true) ↔ (c.spawner ≡ j))
    × (c.spawner ≡ j → (ds : List ℕ) → e.device_ids ≡ some ds → c.visible ≡ some ds)

-- Under `documented`, whatever the engines of the process did and whichever subprocesses ended, outside
-- of the creation lock: an engine's `_child_pids` names, of the live subprocesses, exactly those that
-- its own construction started; and each of these started with CUDA_VISIBLE_DEVICES set to the GPUs of
-- its engine, where it has any assigned.
pub children_attributed :
    (devices : List (Option (List ℕ))) (env : Option (List ℕ)) {p : EngineProcess} (j : ℕ)
    {e : VllmEngine}
    → Happens (new_process devices env) p
    → p.section ≡ none
    → get_elem? p.engines j ≡ some e
    → All (Serves j e) p.children
children_attributed devices env {p} j {e} past outside at =
    All-map p.children (λ c a. ((a.mine, λ k. ground (arith, a.named k)), a.shown))
      ((Happens-IsAttributed past (new-IsAttributed devices env)).attributed j e at)

-- Under `documented`, also while another engine is under construction: an engine that is destroyed kills
-- the subprocesses that its construction started, all of them and no other engine's.
pub destroy_spares_siblings :
    (devices : List (Option (List ℕ))) (env : Option (List ℕ)) {p q : EngineProcess} (i : ℕ)
    → Happens (new_process devices env) p
    → is_creator p.section i ≡ false
    → process_event (reaps i) p ≡ some q
    → q.children ≡ filter (λ c. not (c.spawner == i)) p.children
unfolding process_event reap_engine
destroy_spares_siblings devices env {p} {q} i past other h =
    elim (Option-cases (get_elem? p.engines i)) [
      | inl e ↦ absurd (ground arith)
      | inr (e, at) ↦
          ap (λ x. x.children) (sym (the_reaped e at))
          ∙ filter_ext _ _ p.children (
              All-map p.children (λ c a. ground (arith, a.mine, a.named))
                ((Happens-IsAttributed past (new-IsAttributed devices env)).attributed i e at))
    ]
  where
    the_reaped : (e : VllmEngine) → get_elem? p.engines i ≡ some e → reap_engine i e p ≡ q
    the_reaped e at = ground arith

-- The length that the engine is built with exceeds neither the configured one nor the model's own.
effective_max_model_len_lem :
    (configured n : ℕ)
    → (effective_max_model_len configured (some n) ≤ configured)
      × (n ≢ 0 → effective_max_model_len configured (some n) ≤ n)
unfolding effective_max_model_len
effective_max_model_len_lem configured n = ground arith
