-- ===== src/Pool/Choice.antt =====
-- src/py-inference/src/inference/engine_pool.py: what `_pick_engine` promises of its choice.
use openmodel.Base.{
  ℕ, zero, suc, ◌+◌, ◌%◌, ◌≡◌, sym, ap, ◌∙◌, subst, inl, inr, true, List, [], ◌∷◌, Option, none,
  some, String, length, ltb, ◌==◌, get_elem?, arith, Bool-cases, Option-cases,
}
use native.Mathlib.Nat.{add-zero, zero-add}
use openmodel.Engine.State.{VllmEngine, is_available}
use openmodel.Pool.State.{Pool, Strategy, round_robin, least_busy}
use openmodel.Pool.Sessions.{lookup}
use openmodel.Pool.Pick.{
  Candidate, load, candidates, least, find_index, pinned, balance_by, pick_some, pick_from, get_or,
  pick_for, pick_engine, truthy,
}

-- Every candidate of a list has the property.
abbrev pub Every {κ} : (Candidate → Type κ) → List Candidate → Type κ
Every P [] = Unit
Every P (c ∷ cs) = P c × Every P cs

pub least-Every {κ} :
    (P : Candidate → Type κ) (c : Candidate) (cs : List Candidate)
    → P c
    → Every P cs
    → P (least c cs)
unfolding least
least-Every P c [] pc ps = pc
least-Every P c (d ∷ ds) pc ps = elim (Bool-cases (ltb (load d) (load c))) [
  | inl e ↦ rw e (least-Every P d ds ps.0 ps.1)
  | inr e ↦ rw e (least-Every P c ds pc ps.1)
]

find_index-Every {κ} :
    (P : Candidate → Type κ) (i : ℕ) (cs : List Candidate) (d : Candidate)
    → Every P cs
    → find_index i cs ≡ some d
    → P d
unfolding find_index
find_index-Every P i [] d ps e = cc
find_index-Every P i (c ∷ cs) d ps e = elim (Bool-cases (c.index == i)) [
  | inl t ↦ subst P (ground arith) ps.0
  | inr t ↦ find_index-Every P i cs d ps.1 (ground arith)
]

get_elem?-Every {κ} :
    (P : Candidate → Type κ) (cs : List Candidate) (i : ℕ) (d : Candidate)
    → Every P cs
    → get_elem? cs i ≡ some d
    → P d
get_elem?-Every P [] i d ps e = cc
get_elem?-Every P (c ∷ cs) zero d ps e = subst P (ground arith) ps.0
get_elem?-Every P (c ∷ cs) (suc i) d ps e = get_elem?-Every P cs i d ps.1 e

get_or-Every {κ} :
    (P : Candidate → Type κ) (cs : List Candidate) (i : ℕ) (d : Candidate)
    → P d
    → Every P cs
    → P (get_or cs i d)
unfolding get_or
get_or-Every P cs i d pd ps = elim (Option-cases (get_elem? cs i)) [
  | inl e ↦ rw (e, get_or) pd
  | inr (x, e) ↦ rw (e, get_or) (get_elem?-Every P cs i x ps e)
]

balance_by-Every {κ} :
    (P : Candidate → Type κ) (st : Strategy) (p : Pool) (c : Candidate) (cs : List Candidate)
    → P c
    → Every P cs
    → P (balance_by st p c cs).0
unfolding balance_by
balance_by-Every P least_busy p c cs pc ps = least-Every P c cs pc ps
balance_by-Every P round_robin p c cs pc ps =
    get_or-Every P (c ∷ cs) (p.rr_index % length (c ∷ cs)) c pc (pc, ps)

pinned-Every {κ} :
    (P : Candidate → Type κ) (p : Pool) (k : String) (now : ℕ) (c d : Candidate)
    (cs : List Candidate)
    → P c
    → Every P cs
    → pinned p k now c cs ≡ some d
    → P d
unfolding pinned
pinned-Every P p k now c d cs pc ps e = elim (Option-cases (lookup k p.engine_sessions)) [
  | inl no_pin ↦ absurd (ground arith)
  | inr (v, pin) ↦ find_index-Every P v.engine (c ∷ cs) d (pc, ps) (ground arith)
]

pick_for-Every {κ} :
    (P : Candidate → Type κ) (p : Pool) (k : String) (now : ℕ) (c : Candidate) (cs : List Candidate)
    → P c
    → Every P cs
    → P (pick_for p k now c cs).0
unfolding pick_for
pick_for-Every P p k now c cs pc ps = elim (Option-cases (pinned p k now c cs)) [
  | inl e ↦ rw (e, pick_for) (balance_by-Every P p.lb_strategy p c cs pc ps)
  | inr (d, e) ↦ rw (e, pick_for) (pinned-Every P p k now c d cs pc ps e)
]

pick_some-Every {κ} :
    (P : Candidate → Type κ) (p : Pool) (key : Option String) (now : ℕ) (c : Candidate)
    (cs : List Candidate)
    → P c
    → Every P cs
    → P (pick_some p key now c cs).0
unfolding pick_some
pick_some-Every P p none now c cs pc ps = balance_by-Every P p.lb_strategy p c cs pc ps
pick_some-Every P p (some k) now c cs pc ps = pick_for-Every P p k now c cs pc ps

-- The candidate stands in the list at its index, and serves.
abbrev pub Serves : List VllmEngine → Candidate → Type 0
Serves es d = (get_elem? es d.index ≡ some d.engine) × (is_available d.engine ≡ true)

pub candidates-Serves :
    (full : List VllmEngine) (i : ℕ) (es : List VllmEngine)
    → ((j : ℕ) → get_elem? full (i + j) ≡ get_elem? es j)
    → Every (Serves full) (candidates i es)
unfolding candidates
candidates-Serves full i [] h = tt
candidates-Serves full i (e ∷ es) h =
    let rest = candidates-Serves full (suc i) es (λ j. shift j ∙ h (suc j)) in
    elim (Bool-cases (is_available e)) [
      | inl serves ↦
          rw (serves, candidates) ((ap (get_elem? full) (sym (add-zero i)) ∙ h 0, serves), rest)
      | inr busy ↦ rw (busy, candidates) rest
    ]
  where
    shift : (j : ℕ) → get_elem? full (suc i + j) ≡ get_elem? full (i + suc j)
    shift j = ap (get_elem? full) (omega arith)

pick_from-Every {κ} :
    (P : Candidate → Type κ) (p : Pool) (key : Option String) (now : ℕ) (cs : List Candidate)
    (d : Candidate) (p' : Pool)
    → Every P cs
    → pick_from p key now cs ≡ some (d, p')
    → P d
unfolding pick_from
pick_from-Every P p key now [] d p' ps e = absurd (ground arith)
pick_from-Every P p key now (c ∷ cs) d p' ps e =
    subst P (ground arith) (pick_some-Every P p key now c cs ps.0 ps.1)

-- Whatever the strategy, the sessions and the clock, the engine picked is one of the pool's and is
-- available.
pub pick_serves :
    (p : Pool) (key : Option String) (now : ℕ) {d : Candidate} {p' : Pool}
    → pick_engine p key now ≡ some (d, p')
    → (get_elem? p.engines d.index ≡ some d.engine) × (is_available d.engine ≡ true)
unfolding pick_engine
pick_serves p key now {d} {p'} e =
    pick_from-Every (Serves p.engines) p (truthy key) now _ d p'
      (candidates-Serves p.engines 0 p.engines (λ j. rw zero-add)) e
