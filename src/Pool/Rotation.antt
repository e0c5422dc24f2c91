-- ===== src/Pool/Rotation.antt =====
-- src/py-inference/src/inference/engine_pool.py: round robin in `_pick_engine`.
use openmodel.Base.{
  ℕ, zero, suc, ◌+◌, ◌-◌, ◌%◌, ◌<◌, ◌≡◌, refl, List, [], ◌∷◌, none, some, length, if◌then◌else◌,
  leb, get_elem?, arith, ap, ◌∙◌,
}
use native.Mathlib.Nat.{mod-lt, mod-add-mod, mod-eq_of_lt, add-mod_right}
use openmodel.Pool.State.{Pool, round_robin}
use openmodel.Pool.Pick.{
  Candidate, candidates, balance, get_or, pick_some, pick_from, pick_engine, truthy,
}

-- The place in a rotation of `n` that is reached from `r` in `turn` steps.
turns : ℕ → ℕ → ℕ → ℕ
turns r j n = if leb (r % n) j then j - r % n else j + n - r % n

turns_lem : (r j n : ℕ) → j < n → ((r + turns r j n) % n ≡ j) × (turns r j n < n)
unfolding turns
turns_lem r j n h = ground (
  arith,
  mod-lt r {m = n},
  mod-add-mod r n (j - r % n),
  mod-add-mod r n (j + n - r % n),
  mod-eq_of_lt h,
  add-mod_right j n,
)

rr_pick :
    (p : Pool) (now : ℕ) {c : Candidate} {cs : List Candidate}
    → p.lb_strategy ≡ round_robin
    → candidates 0 p.engines ≡ c ∷ cs
    → pick_engine p none now
      ≡ some
          (get_or (c ∷ cs) (p.rr_index % length (c ∷ cs)) c, record p { rr_index = p.rr_index + 1 })
unfolding pick_engine truthy pick_from pick_some balance
rr_pick p now st es = rw es (ground arith)

-- The pool after `t` picks with no session.
pub picks : ℕ → ℕ → Pool → Pool
picks zero now p = p
picks (suc t) now p = elim (pick_engine p none now) [ none ↦ p | some (d, p') ↦ picks t now p' ]

picks_lem :
    (t : ℕ) (p : Pool) (now : ℕ) (c : Candidate) (cs : List Candidate)
    → p.lb_strategy ≡ round_robin
    → candidates 0 p.engines ≡ c ∷ cs
    → picks t now p ≡ record p { rr_index = p.rr_index + t }
unfolding picks
picks_lem zero p now c cs st es = ground arith
picks_lem (suc t) p now c cs st es =
    rw (rr_pick p now st es, picks)
      (ground (arith, picks_lem t (record p { rr_index = p.rr_index + 1 }) now c cs st es))

get_elem?-lt :
    (cs : List Candidate) (i : ℕ) {d : Candidate} → get_elem? cs i ≡ some d → i < length cs
get_elem?-lt [] i h = ground arith
get_elem?-lt (c ∷ cs) zero h = omega arith
get_elem?-lt (c ∷ cs) (suc i) h = omega (arith, get_elem?-lt cs i h)

rr_reaches :
    (p : Pool) (now j : ℕ) (cs : List Candidate) {d : Candidate}
    → p.lb_strategy ≡ round_robin
    → candidates 0 p.engines ≡ cs
    → get_elem? cs j ≡ some d
    → (t : ℕ) × (t < length cs)
      × (pick_engine (picks t now p) none now
          ≡ some (d, record p { rr_index = p.rr_index + t + 1 }))
rr_reaches p now j [] st es at = absurd (ground arith)
rr_reaches p now j (c ∷ cs) {d} st es at = (
  turns p.rr_index j (length (c ∷ cs)),
  (turned).1,
  rw (picks_lem _ p now c cs st es) (
      rr_pick (record p { rr_index = p.rr_index + turns p.rr_index j (length (c ∷ cs)) }) now st es
      ∙ ap
          (λ x.
            some (x, record p { rr_index = p.rr_index + turns p.rr_index j (length (c ∷ cs)) + 1 }))
          got),
)
  where
    turned :
        ((p.rr_index + turns p.rr_index j (length (c ∷ cs))) % length (c ∷ cs) ≡ j)
        × (turns p.rr_index j (length (c ∷ cs)) < length (c ∷ cs))
    turned = turns_lem p.rr_index j (length (c ∷ cs)) (get_elem?-lt (c ∷ cs) j at)

    got :
        get_or (c ∷ cs) ((p.rr_index + turns p.rr_index j (length (c ∷ cs))) % length (c ∷ cs)) c
        ≡ d
    got = unfold get_or in ground (arith, turned)

-- With round robin and no session, every available engine is picked by one of the next `n` picks,
-- where `n` is the number of available engines, as long as the availability stays as it is.
pub round_robin_fair :
    (p : Pool) (now j : ℕ) {d : Candidate}
    → p.lb_strategy ≡ round_robin
    → get_elem? (candidates 0 p.engines) j ≡ some d
    → (t : ℕ) × (t < length (candidates 0 p.engines))
      × (pick_engine (picks t now p) none now
          ≡ some (d, record p { rr_index = p.rr_index + t + 1 }))
round_robin_fair p now j st at = rr_reaches p now j (candidates 0 p.engines) st refl at
