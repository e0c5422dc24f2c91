-- ===== src/Pool/Pinned.antt =====
-- src/py-inference/src/inference/engine_pool.py: a session's pin in `_engine_sessions`, while other
-- requests pick engines and engines change.
use openmodel.Base.{
  ℕ, suc, zero, ◌+◌, ◌<◌, ◌≡◌, ◌≢◌, inl, inr, List, [], ◌∷◌, Option, none, some, String, arith,
  Option-cases, ap, subst, All, true, get_elem?,
}
use text.Mathlib.TextEquality.{eq_iff}
use openmodel.Engine.State.{VllmEngine, is_available}
use openmodel.Pool.State.{Pool, Pin, Strategy, round_robin, least_busy}
use openmodel.Pool.Sessions.{lookup, insert, lookup-insert, bound_sessions-lookup}
use openmodel.Pool.Pick.{
  Candidate, candidates, find_index, pinned, balance, balance_by, pick_for, pick_some, pick_from,
  pick_engine, truthy, renew, remember,
}

-- The pin of an engine from now.
abbrev pub pin_at : Pool → Candidate → ℕ → Pin
pin_at p d now = record { engine = d.index; expiry = now + p.engine_session_ttl }

-- What else happens to the pool: another request picks an engine, or the engines change.
pub data PoolEvent : Type 0 where
  picks_for : Option String → ℕ → PoolEvent
  engines_become : List VllmEngine → PoolEvent

unfoldable pub pool_event : PoolEvent → Pool → Pool
pool_event (picks_for key now) p = elim (pick_engine p key now) [ none ↦ p | some (d, p') ↦ p' ]
pool_event (engines_become es) p = record p { engines = es }

unfoldable pub pool_run : List PoolEvent → Pool → Pool
pool_run [] p = p
pool_run (e ∷ es) p = pool_run es (pool_event e p)

-- Not a request of the session `k`, and before `until`.
abbrev pub Apart : String → ℕ → PoolEvent → Type 0
Apart k until (picks_for key now) = (key ≢ some k) × (now < until)
Apart k until (engines_become es) = Unit

-- The session's pin stands, with the settings of `p`.
pub record IsPinned (k : String) (pin : Pin) (ttl slack : ℕ) (p : Pool) : Type 0 where
  pub found : lookup k p.engine_sessions ≡ some pin
  pub ttl_same : p.engine_session_ttl ≡ ttl
  pub slack_same : p.engine_affinity_slack ≡ slack

balance_by-IsPinned :
    (k : String) (pin : Pin) (ttl slack : ℕ) (st : Strategy) (p : Pool) (c : Candidate)
    (cs : List Candidate)
    → IsPinned k pin ttl slack p
    → IsPinned k pin ttl slack (balance_by st p c cs).1
unfolding balance_by
balance_by-IsPinned k pin ttl slack least_busy p c cs v = v
balance_by-IsPinned k pin ttl slack round_robin p c cs v = record {
  found = v.found;
  ttl_same = v.ttl_same;
  slack_same = v.slack_same;
}

insert-other :
    (j k : String) (pin other : Pin) (table : List (String × Pin))
    → j ≢ k
    → lookup k table ≡ some pin
    → lookup k (insert j other table) ≡ some pin
insert-other j k pin other table ne h = ground (arith, lookup-insert j k other table, eq_iff j k)

pick_for-IsPinned :
    (k j : String) (pin : Pin) (ttl slack : ℕ) (p : Pool) (now : ℕ) (c : Candidate)
    (cs : List Candidate)
    → j ≢ k
    → now < pin.expiry
    → IsPinned k pin ttl slack p
    → IsPinned k pin ttl slack (pick_for p j now c cs).1
unfolding pick_for renew remember balance
pick_for-IsPinned k j pin ttl slack p now c cs ne live v =
    elim (Option-cases (pinned p j now c cs)) [
      | inr (d, e) ↦
          rw (e, pick_for)
            (record {
              found = insert-other j k pin (pin_at p d now) p.engine_sessions ne v.found;
              ttl_same = v.ttl_same;
              slack_same = v.slack_same;
            })
      | inl e ↦
          let q = (balance_by p.lb_strategy p c cs).1 in
          let d = (balance_by p.lb_strategy p c cs).0 in
          let w = balance_by-IsPinned k pin ttl slack p.lb_strategy p c cs v in
          rw (e, pick_for)
            (record {
              found =
                  bound_sessions-lookup now k pin (insert j (pin_at q d now) q.engine_sessions)
                    (insert-other j k pin (pin_at q d now) q.engine_sessions ne w.found) live;
              ttl_same = w.ttl_same;
              slack_same = w.slack_same;
            })
    ]

pick_some-IsPinned :
    (k : String) (key : Option String) (pin : Pin) (ttl slack : ℕ) (p : Pool) (now : ℕ)
    (c : Candidate) (cs : List Candidate)
    → key ≢ some k
    → now < pin.expiry
    → IsPinned k pin ttl slack p
    → IsPinned k pin ttl slack (pick_some p key now c cs).1
unfolding pick_some balance
pick_some-IsPinned k none pin ttl slack p now c cs ne live v =
    balance_by-IsPinned k pin ttl slack p.lb_strategy p c cs v
pick_some-IsPinned k (some j) pin ttl slack p now c cs ne live v =
    pick_for-IsPinned k j pin ttl slack p now c cs (λ e. ne (ap some e)) live v

truthy-ne : (k : String) (key : Option String) → key ≢ some k → truthy key ≢ some k
unfolding truthy
truthy-ne k none ne e = ground arith
truthy-ne k (some j) ne e = ground arith

picked-IsPinned :
    (k : String) (key : Option String) (pin : Pin) (ttl slack : ℕ) (p : Pool) (now : ℕ)
    (cs : List Candidate)
    → key ≢ some k
    → now < pin.expiry
    → IsPinned k pin ttl slack p
    → IsPinned k pin ttl slack (elim (pick_from p key now cs) [ none ↦ p | some (d, p') ↦ p' ])
unfolding pick_from
picked-IsPinned k key pin ttl slack p now [] ne live v = v
picked-IsPinned k key pin ttl slack p now (c ∷ cs) ne live v =
    pick_some-IsPinned k key pin ttl slack p now c cs ne live v

pub run-IsPinned :
    (k : String) (pin : Pin) (ttl slack : ℕ) (es : List PoolEvent) (p : Pool)
    → All (Apart k pin.expiry) es
    → IsPinned k pin ttl slack p
    → IsPinned k pin ttl slack (pool_run es p)
unfolding pool_run pool_event pick_engine
run-IsPinned k pin ttl slack [] p h v = v
run-IsPinned k pin ttl slack (picks_for key now ∷ es) p (h, hs) v =
    run-IsPinned k pin ttl slack es (pool_event (picks_for key now) p) hs (
      picked-IsPinned k (truthy key) pin ttl slack p now (candidates 0 p.engines)
        (truthy-ne k key h.0) h.1 v)
run-IsPinned k pin ttl slack (engines_become us ∷ es) p (h, hs) v =
    run-IsPinned k pin ttl slack es (record p { engines = us }) hs
      (record { found = v.found; ttl_same = v.ttl_same; slack_same = v.slack_same })

pub find_candidate :
    (i j : ℕ) (es : List VllmEngine) (e : VllmEngine)
    → get_elem? es j ≡ some e
    → is_available e ≡ true
    → find_index (i + j) (candidates i es) ≡ some (record { index = i + j; engine = e })
unfolding candidates find_index
find_candidate i j [] e at up = absurd (ground arith)
find_candidate i zero (x ∷ es) e at up = ground arith
find_candidate i (suc j) (x ∷ es) e at up =
    let rest : find_index (i + suc j) (candidates (suc i) es)
        ≡ some (record { index = i + suc j; engine = e }) =
      subst (λ n. find_index n (candidates (suc i) es) ≡ some (record { index = n; engine = e }))
        (omega arith) (find_candidate (suc i) j es e at up) in
    ground arith
