-- ===== src/Pool/Affinity.antt =====
-- src/py-inference/src/inference/engine_pool.py: session affinity in
-- `_pick_engine`.
use openmodel.Base.{
  ℕ, ◌+◌, ◌≤◌, ◌<◌, ◌≡◌, ◌≢◌, refl, inl, inr, List, [], ◌∷◌, some, String, arith, Option-cases, ap,
  ◌∙◌, All, true, get_elem?,
}
use native.Mathlib.Nat.{zero-add}
use text.Mathlib.TextEquality.{eq_iff}
use openmodel.Engine.State.{VllmEngine, is_available}
use openmodel.Pool.State.{Pool, Pin, Strategy, round_robin, least_busy}
use openmodel.Pool.Sessions.{lookup, insert, lookup-insert, bound_sessions-lookup}
use openmodel.Pool.Pick.{
  Candidate, load, candidates, find_index, pinned, balance, balance_by, pick_for, pick_some,
  pick_from, pick_engine, truthy, renew, remember,
}
use openmodel.Pool.Choice.{Every, least-Every, candidates-Serves}
use openmodel.Pool.Pinned.{
  pin_at, PoolEvent, Apart, pool_run, IsPinned, run-IsPinned, find_candidate,
}

balance_by-ttl :
    (st : Strategy) (p : Pool) (c : Candidate) (cs : List Candidate)
    → (balance_by st p c cs).1.engine_session_ttl ≡ p.engine_session_ttl
unfolding balance_by
balance_by-ttl least_busy p c cs = refl
balance_by-ttl round_robin p c cs = refl

lookup-insert_same :
    (key : String) (pin : Pin) (table : List (String × Pin))
    → lookup key (insert key pin table) ≡ some pin
lookup-insert_same key pin table = ground (arith, lookup-insert key key pin table, eq_iff key key)

remember-lookup :
    (p q : Pool) (k : String) (now : ℕ) (d : Candidate)
    → q.engine_session_ttl ≡ p.engine_session_ttl
    → 0 < p.engine_session_ttl
    → lookup k (remember q k now d).engine_sessions ≡ some (pin_at p d now)
unfolding remember
remember-lookup p q k now d e pos =
    bound_sessions-lookup now k (pin_at q d now) _ (lookup-insert_same k _ q.engine_sessions)
      (omega arith)
    ∙ ap some (ground arith)

pick_for-lookup :
    (p : Pool) (k : String) (now : ℕ) (c : Candidate) (cs : List Candidate)
    → 0 < p.engine_session_ttl
    → let (d, p') = pick_for p k now c cs in lookup k p'.engine_sessions ≡ some (pin_at p d now)
unfolding pick_for renew balance
pick_for-lookup p k now c cs pos = elim (Option-cases (pinned p k now c cs)) [
  | inl e ↦
      rw (e, pick_for)
        (remember-lookup p (balance_by p.lb_strategy p c cs).1 k now
          (balance_by p.lb_strategy p c cs).0 (balance_by-ttl p.lb_strategy p c cs) pos)
  | inr (d, e) ↦ rw (e, pick_for) (lookup-insert_same k _ p.engine_sessions)
]

pick_from-lookup :
    (p : Pool) (k : String) (now : ℕ) (cs : List Candidate) (d : Candidate) (p' : Pool)
    → 0 < p.engine_session_ttl
    → pick_from p (some k) now cs ≡ some (d, p')
    → lookup k p'.engine_sessions ≡ some (pin_at p d now)
unfolding pick_from pick_some
pick_from-lookup p k now [] d p' pos e = absurd (ground arith)
pick_from-lookup p k now (c ∷ cs) d p' pos e = ground (arith, pick_for-lookup p k now c cs pos)

-- A request with a session key leaves the session pinned to the engine picked for it, for the full
-- time from now, also when the table of sessions is pruned in the same call.
pick_remembers :
    (p : Pool) (k : String) (now : ℕ) {d : Candidate} {p' : Pool}
    → 0 < p.engine_session_ttl
    → k ≢ ""
    → pick_engine p (some k) now ≡ some (d, p')
    → lookup k p'.engine_sessions
      ≡ some (record { engine = d.index; expiry = now + p.engine_session_ttl })
unfolding pick_engine truthy
pick_remembers p k now {d} {p'} pos ne e =
    pick_from-lookup p k now (candidates 0 p.engines) d p' pos (ground (arith, eq_iff k ""))

pick_for-settings :
    (p : Pool) (k : String) (now : ℕ) (c : Candidate) (cs : List Candidate)
    → let p' = (pick_for p k now c cs).1 in
      (p'.engine_session_ttl ≡ p.engine_session_ttl)
      × (p'.engine_affinity_slack ≡ p.engine_affinity_slack)
unfolding pick_for renew remember balance balance_by
pick_for-settings p k now c cs = ground arith

pick_from-settings :
    (p : Pool) (k : String) (now : ℕ) (cs : List Candidate) (d : Candidate) (p' : Pool)
    → pick_from p (some k) now cs ≡ some (d, p')
    → (p'.engine_session_ttl ≡ p.engine_session_ttl)
      × (p'.engine_affinity_slack ≡ p.engine_affinity_slack)
unfolding pick_from pick_some
pick_from-settings p k now [] d p' e = absurd (ground arith)
pick_from-settings p k now (c ∷ cs) d p' e = ground (arith, pick_for-settings p k now c cs)

pick_pins :
    (p : Pool) (k : String) (now : ℕ) {d : Candidate} {p' : Pool}
    → 0 < p.engine_session_ttl
    → k ≢ ""
    → pick_engine p (some k) now ≡ some (d, p')
    → IsPinned k (pin_at p d now) p.engine_session_ttl p.engine_affinity_slack p'
unfolding pick_engine truthy
pick_pins p k now {d} {p'} pos ne e =
    let direct : pick_from p (some k) now (candidates 0 p.engines) ≡ some (d, p') =
      ground (arith, eq_iff k "") in
    let (ttl, slack) = pick_from-settings p k now (candidates 0 p.engines) d p' direct in
    record { found = pick_remembers p k now pos ne e; ttl_same = ttl; slack_same = slack }

Every-map :
    {P Q : Candidate → Type 0} (cs : List Candidate)
    → ((c : Candidate) → P c → Q c)
    → Every P cs
    → Every Q cs
Every-map [] f h = tt
Every-map (c ∷ cs) f (p, h) = (f c p, Every-map cs f h)

-- The pinned engine is there, and no available one has so many requests less.
pinned-found :
    (p : Pool) (k : String) (now : ℕ) (pin : Pin) (c d : Candidate) (cs : List Candidate)
    → lookup k p.engine_sessions ≡ some pin
    → now < pin.expiry
    → find_index pin.engine (c ∷ cs) ≡ some d
    → Every (λ x. load d ≤ load x + p.engine_affinity_slack) (c ∷ cs)
    → pinned p k now c cs ≡ some d
unfolding pinned
pinned-found p k now pin c d cs there live found (first, near) =
    let bound = least-Every (λ x. load d ≤ load x + p.engine_affinity_slack) c cs first near in
    rw (there, pinned) (ground arith)

pick_from_pinned :
    (p : Pool) (k : String) (now : ℕ) (pin : Pin) (d : Candidate) (cs : List Candidate)
    → lookup k p.engine_sessions ≡ some pin
    → now < pin.expiry
    → find_index pin.engine cs ≡ some d
    → Every (λ x. load d ≤ load x + p.engine_affinity_slack) cs
    → (p' : Pool) × (pick_from p (some k) now cs ≡ some (d, p'))
unfolding pick_from pick_some pick_for find_index
pick_from_pinned p k now pin d [] there live found near = absurd (ground arith)
pick_from_pinned p k now pin d (c ∷ cs) there live found near = (
  renew p k now d,
  ap some (rw (pinned-found p k now pin c d cs there live found near, pick_for) refl),
)

truthy-some : (k : String) → k ≢ "" → truthy (some k) ≡ some k
unfolding truthy
truthy-some k ne = ground (arith, eq_iff k "")

-- A session with a nonempty key stays with its engine, where pins last a positive time: after a request
-- of session `k` got engine `d`, whatever requests of
-- other sessions, or of none, come before its pin runs out, and however engines come, go and change
-- their load meanwhile: if the engine at that index is then available and has at most `slack` requests
-- more than any available one, the next request of the session, while the pin holds, gets it again.
pub session_sticks :
    (p : Pool) (k : String) (now : ℕ) (es : List PoolEvent) (later : ℕ) {d : Candidate} {p' : Pool}
    {e : VllmEngine}
    → k ≢ ""
    → pick_engine p (some k) now ≡ some (d, p')
    → All (Apart k (now + p.engine_session_ttl)) es
    → later < now + p.engine_session_ttl
    → 0 < p.engine_session_ttl
    → let q = pool_run es p' in
      get_elem? q.engines d.index ≡ some e
      → is_available e ≡ true
      → ((j : ℕ) (x : VllmEngine)
          → get_elem? q.engines j ≡ some x
          → is_available x ≡ true
          → e.active_requests ≤ x.active_requests + p.engine_affinity_slack)
      → (q' : Pool) × (pick_engine q (some k) later
          ≡ some (record { index = d.index; engine = e }, q'))
unfolding pick_engine
session_sticks p k now es later {d} {p'} {e} ne picked apart soon pos at up near =
    let there = rw zero-add at (find_candidate 0 d.index q.engines e at up) in
    rw (truthy-some k ne) (
      pick_from_pinned q k later pin (record { index = d.index; engine = e })
        (candidates 0 q.engines) v.found soon there
        (Every-map (candidates 0 q.engines) (λ x s. rw v.slack_same (near x.index x.engine s.0 s.1))
          (candidates-Serves q.engines 0 q.engines (λ j. rw zero-add))))
  where
    pin : Pin
    pin = record { engine = d.index; expiry = now + p.engine_session_ttl }

    q : Pool
    q = pool_run es p'

    v : IsPinned k pin p.engine_session_ttl p.engine_affinity_slack q
    v =
        run-IsPinned k pin p.engine_session_ttl p.engine_affinity_slack es p' apart
          (pick_pins p k now pos ne picked)
