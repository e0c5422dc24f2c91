-- ===== src/Engine/Rules.antt =====
-- How to prove an invariant of a System: by what `advance` yields, task by task.
use openmodel.Base.{
  total, total-append, total-set, set, [], ◌∷◌, ◌+◌, ◌≡◌, sym, subst, inl, inr, ℕ, Option, none,
  some, arith, get_elem?, true, false, is_some, ◌&&◌, Option-cases,
}
use openmodel.Engine.Moves.{Task, Outcome, Move}
use openmodel.Engine.Tasks.{advance}
use openmodel.Engine.System.{
  System, Rule, Step, call, run, Reach, here, next, needs_lock, settle, exec_task, spawn, IsCall,
}

-- What holds of a move, if there is one.
abbrev pub Yields {ℓ} : (Move → Type ℓ) → Option Move → Type ℓ
Yields P none = Unit
Yields P (some m) = P m

pub yielded {ℓ} : (P : Move → Type ℓ) (x : Option Move) (m : Move) → Yields P x → x ≡ some m → P m
yielded P none m y e = cc
yielded P (some n) m y e = subst (Yields P) e y

-- A task that ran: its move, the state after it, and that the lock let it run.
pub record Ran (i : ℕ) (o : Outcome) (c : Task) (s t : System) : Type 0 where
  pub move : Move
  pub moved : advance o c s.engine ≡ some move
  pub after : t ≡ settle i c move s
  pub let_in : (needs_lock c && is_some s.lock) ≡ false

pub exec_task-Ran :
    (i : ℕ) (o : Outcome) (c : Task) (s t : System) → exec_task i o c s ≡ some t → Ran i o c s t
unfolding exec_task
exec_task-Ran i o c s t h = elim (Option-cases (advance o c s.engine)) [
  | inl e ↦ absurd (ground arith)
  | inr (m, e) ↦ record { move = m; moved = e; after = ground arith; let_in = ground arith }
]

-- An invariant is kept if every call and every move keeps it.
module _ {ℓ} (rule : Rule) (Inv : System → Type ℓ) where
  abbrev pub OnCall : Type ℓ
  OnCall = (s : System) (c : Task) → IsCall c → Inv s → Inv (spawn c s)

  abbrev pub OnRun : Type ℓ
  OnRun =
      (s : System) (i : ℕ) (o : Outcome) (c : Task)
      → get_elem? s.tasks i ≡ some c
      → rule o c s.engine.state ≡ true
      → (needs_lock c && is_some s.lock) ≡ false
      → Inv s
      → Yields (λ m. Inv (settle i c m s)) (advance o c s.engine)

  pub Step-keeps : OnCall → OnRun → {s t : System} → Step rule s t → Inv s → Inv t
  Step-keeps on_call on_run {s} {t} (call c k e) v = subst Inv (sym e) (on_call s c k v)
  Step-keeps on_call on_run {s} {t} (run i o c at ok e) v =
      let r = exec_task-Ran i o c s t e in
      subst Inv (sym r.after)
        (yielded (λ m. Inv (settle i c m s)) _ r.move (on_run s i o c at ok r.let_in v) r.moved)

  pub Reach-keeps : OnCall → OnRun → {s t : System} → Reach rule s t → Inv s → Inv t
  Reach-keeps on_call on_run here v = v
  Reach-keeps on_call on_run (next r st) v =
      Step-keeps on_call on_run st (Reach-keeps on_call on_run r v)

-- What `advance` yields under one property follows under a weaker one.
pub Yields-map {ℓ κ} :
    {P : Move → Type ℓ} {Q : Move → Type κ} (x : Option Move)
    → ((m : Move) → P m → Q m)
    → Yields P x
    → Yields Q x
Yields-map none f y = tt
Yields-map (some m) f y = f m y

pub Yields-both {ℓ κ} :
    (P : Move → Type ℓ) (Q : Move → Type κ) (x : Option Move)
    → Yields P x
    → Yields Q x
    → Yields (λ m. P m × Q m) x
Yields-both P Q none a b = tt
Yields-both P Q (some m) a b = (a, b)

pub Yields-join {ℓ κ μ} :
    (P : Move → Type ℓ) (Q : Move → Type κ) (R : Move → Type μ) (x : Option Move)
    → Yields P x
    → Yields Q x
    → Yields R x
    → Yields (λ m. P m × Q m × R m) x
Yields-join P Q R none a b c = tt
Yields-join P Q R (some m) a b c = (a, b, c)

-- A sum over the tasks after a call, and after a move.
module _ (w : Task → ℕ) (s : System) where
  pub total-spawn : (c : Task) → total w (spawn c s).tasks ≡ total w s.tasks + w c
  unfolding spawn
  total-spawn c = omega (arith, total-append w s.tasks (c ∷ []))

  pub total-settle :
      (i : ℕ) (c : Task) (m : Move)
      → get_elem? s.tasks i ≡ some c
      → total w (settle i c m s).tasks + w c ≡ total w s.tasks + w m.task + total w m.spawned
  unfolding settle
  total-settle i c m at =
      omega
        (arith, total-append w (set s.tasks i m.task) m.spawned, total-set w s.tasks i m.task at)
