-- ===== src/Pool/Balance.antt =====
-- src/py-inference/src/inference/engine_pool.py: how `_pick_engine` spreads the load and keeps
-- sessions together.
use openmodel.Base.{
  ℕ, suc, ◌+◌, ◌≤◌, ◌≡◌, refl, ◌↔◌, inl, inr, false, List, [], ◌∷◌, Option, none, some, String, ltb,
  arith, Bool-cases, Option-cases,
}
use openmodel.Engine.State.{VllmEngine, is_available}
use openmodel.Pool.State.{Pool, Strategy, round_robin, least_busy, any_available}
use openmodel.Base.{any}
use openmodel.Pool.Sessions.{lookup}
use openmodel.Pool.Pick.{
  Candidate, load, candidates, least, pinned, balance, balance_by, pick_for, pick_some, pick_from,
  pick_engine, truthy,
}
use openmodel.Pool.Choice.{Every}

least-le :
    (n : ℕ) (c : Candidate) (cs : List Candidate)
    → n ≡ load (least c cs)
    → (n ≤ load c) × Every (λ d. n ≤ load d) cs
unfolding least
least-le n c [] e = (ground arith, tt)
least-le n c (d ∷ ds) e = elim (Bool-cases (ltb (load d) (load c))) [
  | inl t ↦ let h = least-le n d ds (ground arith) in (ground arith, (ground arith, h.1))
  | inr t ↦ let h = least-le n c ds (ground arith) in (ground arith, (ground arith, h.1))
]

Every-mono :
    {P Q : Candidate → Type 0} (cs : List Candidate)
    → ((d : Candidate) → P d → Q d)
    → Every P cs
    → Every Q cs
Every-mono [] f h = tt
Every-mono (c ∷ cs) f h = (f c h.0, Every-mono cs f h.1)

-- At most `slack` requests more than any engine of the list.
abbrev Near : ℕ → Candidate → List Candidate → Type 0
Near slack d cs = Every (λ x. load d ≤ load x + slack) cs

least-Near :
    (slack : ℕ) (d c : Candidate) (cs : List Candidate)
    → load d ≤ load (least c cs) + slack
    → Near slack d (c ∷ cs)
least-Near slack d c cs h =
    let l = least-le (load (least c cs)) c cs refl in
    (omega arith, Every-mono cs (λ x q. omega arith) l.1)

pinned-le :
    (p : Pool) (k : String) (now : ℕ) (c d : Candidate) (cs : List Candidate)
    → pinned p k now c cs ≡ some d
    → load d ≤ load (least c cs) + p.engine_affinity_slack
unfolding pinned
pinned-le p k now c d cs e = elim (Option-cases (lookup k p.engine_sessions)) [
  | inl no_pin ↦ absurd (ground arith)
  | inr (v, pin) ↦ ground arith
]

balance_by-le :
    (st : Strategy) (p : Pool) (c : Candidate) (cs : List Candidate)
    → st ≡ least_busy
    → load (balance_by st p c cs).0 ≤ load (least c cs) + p.engine_affinity_slack
unfolding balance_by
balance_by-le least_busy p c cs e = omega arith
balance_by-le round_robin p c cs e = cc

pick_some-le :
    (p : Pool) (key : Option String) (now : ℕ) (c : Candidate) (cs : List Candidate)
    → p.lb_strategy ≡ least_busy
    → load (pick_some p key now c cs).0 ≤ load (least c cs) + p.engine_affinity_slack
unfolding pick_some pick_for balance
pick_some-le p none now c cs st = balance_by-le p.lb_strategy p c cs st
pick_some-le p (some k) now c cs st = elim (Option-cases (pinned p k now c cs)) [
  | inl e ↦ rw (e, pick_for) (balance_by-le p.lb_strategy p c cs st)
  | inr (d, e) ↦ rw (e, pick_for) (pinned-le p k now c d cs e)
]

pick_from-Near :
    (p : Pool) (key : Option String) (now : ℕ) (cs : List Candidate) (d : Candidate) (p' : Pool)
    → p.lb_strategy ≡ least_busy
    → pick_from p key now cs ≡ some (d, p')
    → Near p.engine_affinity_slack d cs
unfolding pick_from
pick_from-Near p key now [] d p' st e = absurd (ground arith)
pick_from-Near p key now (c ∷ cs) d p' st e =
    least-Near p.engine_affinity_slack d c cs (ground (arith, pick_some-le p key now c cs st))

-- With the least-busy strategy, pinned session or not, the engine picked has at most `slack` active
-- requests more than any available engine.
pub pick_near_least :
    (p : Pool) (key : Option String) (now : ℕ) {d : Candidate} {p' : Pool}
    → p.lb_strategy ≡ least_busy
    → pick_engine p key now ≡ some (d, p')
    → Every (λ x. load d ≤ load x + p.engine_affinity_slack) (candidates 0 p.engines)
unfolding pick_engine
pick_near_least p key now {d} {p'} st e = pick_from-Near p (truthy key) now _ d p' st e

candidates-none :
    (i : ℕ) (es : List VllmEngine) → (candidates i es ≡ []) ↔ (any is_available es ≡ false)
unfolding candidates
candidates-none i [] = (λ h. refl, λ h. refl)
candidates-none i (e ∷ es) =
    let (f, g) = candidates-none (suc i) es in
    elim (Bool-cases (is_available e)) [
      | inl t ↦ (λ h. ground arith, λ h. ground arith)
      | inr t ↦ (λ h. ground (arith, f (ground arith)), λ h. ground (arith, g (ground arith)))
    ]

-- `_pick_engine` raises exactly when no engine of the pool is available.
pick_fails_iff :
    (p : Pool) (key : Option String) (now : ℕ)
    → (pick_engine p key now ≡ none) ↔ (any_available p ≡ false)
unfolding pick_engine any_available pick_from
pick_fails_iff p key now =
    let (f, g) = candidates-none 0 p.engines in (λ h. f (empty _ h), λ h. rw (g h))
  where
    empty : (cs : List Candidate) → pick_from p (truthy key) now cs ≡ none → cs ≡ []
    empty [] h = refl
    empty (c ∷ cs) h = cc
