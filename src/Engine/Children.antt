-- ===== src/Engine/Children.antt =====
-- src/py-inference/src/inference/engine.py: which subprocess belongs to which engine of the process.
use openmodel.Base.{
  ◌≡◌, inl, inr, refl, sym, subst, ap, arith, Bool, true, false, not, ◌&&◌, ◌||◌, ℕ, List, [], ◌∷◌,
  Option, none, some, ◌==◌, get_elem?, get_elem?-set, filter, member, all, All, All-map, All-map2,
  all-All, all-get_elem?, All-filter,
}
use openmodel.Engine.State.{VllmEngine}
use openmodel.Engine.Sections.{destroy_step}
use openmodel.Engine.Creation.{
  Child, CreateSection, EngineProcess, pids_of, minus, enter_creation, new_child, leave_creation,
  reap_engine, is_empty_engine, is_unknown,
}

-- `i` is the engine under construction.
abbrev pub is_creator : Option CreateSection → ℕ → Bool
is_creator none i = false
is_creator (some c) i = c.creator == i

-- The child is one that the construction in progress has started.
abbrev pub is_fresh : Option CreateSection → Child → Bool
is_fresh none c = false
is_fresh (some s) c = not (member c.pid s.pre_existing)

-- An engine against a live subprocess.
pub record Attributed (section : Option CreateSection) (j : ℕ) (e : VllmEngine) (c : Child)
    : Type 0 where
  pub mine : member c.pid e.child_pids ≡ true → c.spawner ≡ j
  pub named :
      c.spawner ≡ j
      → (member c.pid e.child_pids || (is_creator section j && is_fresh section c)) ≡ true
  pub shown : c.spawner ≡ j → (ds : List ℕ) → e.device_ids ≡ some ds → c.visible ≡ some ds

-- The invariant.
pub record IsAttributed (p : EngineProcess) : Type 0 where
  pub attributed :
      (j : ℕ) (e : VllmEngine)
      → get_elem? p.engines j ≡ some e
      → All (Attributed p.section j e) p.children
  pub creating :
      (s : CreateSection) (e : VllmEngine)
      → p.section ≡ some s
      → get_elem? p.engines s.creator ≡ some e
      → (e.child_pids ≡ [])
        × ((ds : List ℕ) → e.device_ids ≡ some ds → p.cuda_visible_devices ≡ some ds)
  pub fresh :
      (s : CreateSection)
      → p.section ≡ some s
      → All (λ c. member c.pid s.pre_existing ≡ false → c.spawner ≡ s.creator) p.children

listed_children :
    (cs ds : List Child)
    → ((x : ℕ) → member x (pids_of cs) ≡ true → member x (pids_of ds) ≡ true)
    → All (λ c. member c.pid (pids_of ds) ≡ true) cs
listed_children [] ds h = ground arith
listed_children (c ∷ cs) ds h =
    (h c.pid (ground arith), listed_children cs ds (λ x k. h x (ground arith)))

member-minus : (x : ℕ) (a b : List ℕ) → member x (minus a b) ≡ (member x a && not (member x b))
member-minus x [] b = refl
member-minus x (y ∷ ys) b = ground (arith, member-minus x ys b)

module _ (p : EngineProcess) (v : IsAttributed p) where
  pub enter-IsAttributed :
      (i : ℕ) (e : VllmEngine)
      → p.section ≡ none
      → get_elem? p.engines i ≡ some e
      → is_empty_engine e ≡ true
      → IsAttributed (enter_creation i true e p)
  unfolding enter_creation
  enter-IsAttributed i e none_yet at idle = record {
    attributed = λ j e' at'.
        All-map p.children
          (λ c a. record { mine = a.mine; named = λ h. ground (arith, a.named h); shown = a.shown })
          (v.attributed j e' at');
    creating = λ s e' es at'. (ground arith, λ ds eds. ground arith);
    fresh = λ s es.
        All-map p.children (λ c m f. ground arith)
          (listed_children p.children p.children (λ x h. h));
  }

  pub spawn-IsAttributed :
      (pid : ℕ) (s : CreateSection)
      → p.section ≡ some s
      → is_unknown pid p ≡ true
      → IsAttributed (new_child pid s p)
  unfolding new_child
  spawn-IsAttributed pid s es unknown = record {
    attributed = λ j e at. (
      record {
        mine = λ h. absurd (
            ground (
              arith,
              all-get_elem? (λ x. not (member pid x.child_pids)) p.engines j (ground arith) at,
            ));
        named = λ h. ground arith;
        shown = λ h ds eds. (v.creating s e es (ground arith)).1 ds eds;
      },
      v.attributed j e at,
    );
    creating = v.creating;
    fresh = λ s' es'. (λ h. ground arith, v.fresh s' es');
  }

  -- The engine's set of subprocesses, once it is built.
  abbrev built_pids : CreateSection → List ℕ
  built_pids s = minus (pids_of p.children) s.pre_existing

  take_over :
      (h : ℕ) (s : CreateSection) (e : VllmEngine) (c : Child)
      → p.section ≡ some s
      → e.child_pids ≡ []
      → (member c.pid s.pre_existing ≡ false → c.spawner ≡ s.creator)
      → member c.pid (pids_of p.children) ≡ true
      → Attributed p.section s.creator e c
      → Attributed none s.creator (record e { handle = some h; child_pids = built_pids s }) c
  take_over h s e c es empty f m a = record {
    mine = λ k. f (ground (arith, member-minus c.pid (pids_of p.children) s.pre_existing));
    named = λ k. ground (arith, a.named k, member-minus c.pid (pids_of p.children) s.pre_existing);
    shown = a.shown;
  }

  pub leave-IsAttributed :
      (h : ℕ) (s : CreateSection) (e : VllmEngine)
      → p.section ≡ some s
      → get_elem? p.engines s.creator ≡ some e
      → IsAttributed (leave_creation h true s e p)
  unfolding leave_creation
  leave-IsAttributed h s e es at = record {
    attributed = λ j e' at'. elim (get_elem?-set p.engines s.creator _ j at') [
      | inl w ↦
          subst (λ x. All (Attributed none x e') p.children) (sym w.0)
            (subst (λ x. All (Attributed none s.creator x) p.children) (sym w.1) taken)
      | inr w ↦
          All-map p.children
            (λ c a. record {
              mine = a.mine;
              named = λ k. ground (arith, w.0, a.named k);
              shown = a.shown;
            })
            (v.attributed j e' w.1)
    ];
    creating = λ s' e' es'. absurd (ground arith);
    fresh = λ s' es'. absurd (ground arith);
  }
    where
      taken :
          All
            (Attributed none s.creator (record e { handle = some h; child_pids = built_pids s }))
            p.children
      taken =
          All-map2 p.children (λ c a take. take a) (v.attributed s.creator e at)
            (All-map2 p.children (λ c f m. take_over h s e c es (v.creating s e es at).0 f m)
              (v.fresh s es) (listed_children p.children p.children (λ x k. k)))

  pub raise-IsAttributed :
      (s : CreateSection)
      → p.section ≡ some s
      → all (λ x. member x.pid s.pre_existing) p.children ≡ true
      → IsAttributed (record p { section = none })
  raise-IsAttributed s es left = record {
    attributed = λ j e at.
        All-map2 p.children
          (λ c m a. record {
            mine = a.mine;
            named = λ h. ground (arith, a.named h);
            shown = a.shown;
          })
          (all-All _ p.children left) (v.attributed j e at);
    creating = λ s' e' es'. absurd (ground arith);
    fresh = λ s' es'. absurd (ground arith);
  }

  pub die-IsAttributed :
      (pid : ℕ) → IsAttributed (record p { children = filter (λ c. not (c.pid == pid)) p.children })
  die-IsAttributed pid = record {
    attributed = λ j e at. All-filter _ p.children (λ c k a. a) (v.attributed j e at);
    creating = v.creating;
    fresh = λ s es. All-filter _ p.children (λ c k a. a) (v.fresh s es);
  }

  pub reap-IsAttributed :
      (i : ℕ) (e : VllmEngine) → get_elem? p.engines i ≡ some e → IsAttributed (reap_engine i e p)
  unfolding reap_engine destroy_step
  reap-IsAttributed i e at = record {
    attributed = λ j e' at'. elim (get_elem?-set p.engines i _ j at') [
      | inl w ↦
          All-filter _ p.children
            (λ c k a. record {
              mine = λ m. ground (arith, ap (λ x. x.child_pids) w.1);
              named = λ m. ground (arith, w.0, a.named (ground (arith, w.0)));
              shown = λ m ds eds.
                  a.shown (ground (arith, w.0)) ds (ground (arith, ap (λ x. x.device_ids) w.1));
            })
            (v.attributed i e at)
      | inr w ↦ All-filter _ p.children (λ c k a. a) (v.attributed j e' w.1)
    ];
    creating = λ s' e' es' at'. elim (get_elem?-set p.engines i _ s'.creator at') [
      | inl w ↦ (
        ap (λ x. x.child_pids) w.1,
        λ ds eds.
            (v.creating s' e es' (ground (arith, w.0))).1 ds
              (ground (arith, ap (λ x. x.device_ids) w.1)),
      )
      | inr w ↦ v.creating s' e' es' w.1
    ];
    fresh = λ s es. All-filter _ p.children (λ c k a. a) (v.fresh s es);
  }
