-- ===== src/Pool/Pick.antt =====
-- src/py-inference/src/inference/engine_pool.py: `_pick_engine`.
use openmodel.Base.{
  ℕ, suc, ◌+◌, ◌%◌, List, [], ◌∷◌, Option, none, some, String, length, if◌then◌else◌, ltb, leb,
  ◌==◌, get_elem?,
}
use text.Mathlib.Text.{◌==◌ as str_eq}
use openmodel.Engine.State.{VllmEngine, is_available}
use openmodel.Pool.State.{Pool, Pin, Strategy, round_robin, least_busy}
use openmodel.Pool.Sessions.{lookup, insert, bound_sessions}

-- An engine with its index.
pub record Candidate : Type 0 where
  pub index : ℕ
  pub engine : VllmEngine

abbrev pub load : Candidate → ℕ
load c = c.engine.active_requests

-- `[e for e in self._engines if e.is_available()]`.
unfoldable pub candidates : ℕ → List VllmEngine → List Candidate
candidates i [] = []
candidates i (e ∷ es) =
    let rest = candidates (suc i) es in
    if is_available e then record { index = i; engine = e } ∷ rest else rest

-- `min` with the load as key: the first of the least.
unfoldable pub least : Candidate → List Candidate → Candidate
least c [] = c
least c (d ∷ ds) = least (if ltb (load d) (load c) then d else c) ds

unfoldable pub find_index : ℕ → List Candidate → Option Candidate
find_index i [] = none
find_index i (c ∷ cs) = if c.index == i then some c else find_index i cs

-- `if session_key:`; the empty key counts as none.
unfoldable pub truthy : Option String → Option String
truthy none = none
truthy (some k) = if str_eq k "" then none else some k

-- The pinned engine, if the pin holds, the engine is available and it is not much busier than the
-- least busy one.
unfoldable pub pinned_if : ℕ → ℕ → Candidate → Option Candidate
pinned_if slack least_load d = if leb (load d) (least_load + slack) then some d else none

unfoldable pub pinned : Pool → String → ℕ → Candidate → List Candidate → Option Candidate
unfolding pinned_if
pinned p k now c cs = elim (lookup k p.engine_sessions) [
  | none ↦ none
  | some v ↦
      if ltb now v.expiry
      then elim (find_index v.engine (c ∷ cs)) [
        | none ↦ none
        | some d ↦ pinned_if p.engine_affinity_slack (load (least c cs)) d
      ]
      else none
]

unfoldable pub get_or : List Candidate → ℕ → Candidate → Candidate
get_or cs i d = elim (get_elem? cs i) [ none ↦ d | some c ↦ c ]

unfoldable pub balance_by : Strategy → Pool → Candidate → List Candidate → Candidate × Pool
unfolding get_or
balance_by least_busy p c cs = (least c cs, p)
balance_by round_robin p c cs =
    (get_or (c ∷ cs) (p.rr_index % length (c ∷ cs)) c, record p { rr_index = p.rr_index + 1 })

-- The choice with no session to follow.
unfoldable pub balance : Pool → Candidate → List Candidate → Candidate × Pool
unfolding balance_by
balance p c cs = balance_by p.lb_strategy p c cs

pin_to : Pool → Candidate → ℕ → Pin
pin_to p d now = record { engine = d.index; expiry = now + p.engine_session_ttl }

unfoldable pub renew : Pool → String → ℕ → Candidate → Pool
unfolding pin_to
renew p k now d = record p { engine_sessions = insert k (pin_to p d now) p.engine_sessions }

unfoldable pub remember : Pool → String → ℕ → Candidate → Pool
unfolding pin_to
remember p k now d = record p {
  engine_sessions = bound_sessions now (insert k (pin_to p d now) p.engine_sessions);
}

-- With a session key.
unfoldable pub pick_for : Pool → String → ℕ → Candidate → List Candidate → Candidate × Pool
unfolding renew balance remember
pick_for p k now c cs = elim (pinned p k now c cs) [
  | some d ↦ (d, renew p k now d)
  | none ↦ let (d, p') = balance p c cs in (d, remember p' k now d)
]

unfoldable pub pick_some : Pool → Option String → ℕ → Candidate → List Candidate → Candidate × Pool
unfolding pick_for balance
pick_some p none now c cs = balance p c cs
pick_some p (some k) now c cs = pick_for p k now c cs

unfoldable pub pick_from : Pool → Option String → ℕ → List Candidate → Option (Candidate × Pool)
unfolding pick_some
pick_from p key now [] = none
pick_from p key now (c ∷ cs) = some (pick_some p key now c cs)

-- `none`: RuntimeError, no engine is available.
unfoldable pub pick_engine : Pool → Option String → ℕ → Option (Candidate × Pool)
unfolding pick_from truthy
pick_engine p key now = pick_from p (truthy key) now (candidates 0 p.engines)
