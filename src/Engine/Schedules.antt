-- ===== src/Engine/Schedules.antt =====
-- A schedule that a rule permits, as a derivation: what `schedule` runs can be reached.
use openmodel.Base.{
  ◌≡◌, refl, Bool, true, false, ◌&&◌, List, [], ◌∷◌, ℕ, none, some, arith, get_elem?, Option-cases,
  inl, inr,
}
use openmodel.Engine.Moves.{Task, top, Outcome}
use openmodel.Engine.System.{
  System, Rule, call, run, Reach, next, IsCall, calls_start, calls_pause, calls_resume, calls_stop,
  calls_switch, calls_generate, exec, exec_task, Round, calls, runs, round, schedule,
}

abbrev is_call : Task → Bool
is_call (Task.start_wait path) = true
is_call (Task.pause_wait u top) = true
is_call (Task.resume_wait top) = true
is_call Task.stop_wait = true
is_call (Task.switch_begin path) = true
is_call (Task.request_begin stream r) = true
is_call _ = false

is_call-IsCall : (c : Task) → is_call c ≡ true → IsCall c
is_call-IsCall (Task.start_wait path) h = calls_start
is_call-IsCall (Task.pause_wait u top) h = calls_pause
is_call-IsCall (Task.resume_wait top) h = calls_resume
is_call-IsCall Task.stop_wait h = calls_stop
is_call-IsCall (Task.switch_begin path) h = calls_switch
is_call-IsCall (Task.request_begin stream r) h = calls_generate
is_call-IsCall _ h = absurd (ground arith)

permits_task : Rule → ℕ → Outcome → System → Bool
permits_task rule i o s = elim (get_elem? s.tasks i) [
  | none ↦ true
  | some t ↦ rule o t s.engine.state
]

permits_round : Rule → Round → System → Bool
unfolding permits_task
permits_round rule (calls c) s = is_call c
permits_round rule (runs i o) s = permits_task rule i o s

-- The rule permits every round of the schedule.
unfoldable pub permits : Rule → List Round → System → Bool
unfolding permits_round round
permits rule [] s = true
permits rule (r ∷ rs) s = permits_round rule r s && permits rule rs (round r s)

round-Reach :
    (rule : Rule) (s0 s : System) (r : Round)
    → Reach rule s0 s
    → permits_round rule r s ≡ true
    → Reach rule s0 (round r s)
unfolding permits_round round
round-Reach rule s0 s (calls c) reach ok = next reach (call c (is_call-IsCall c ok) refl)
round-Reach rule s0 s (runs i o) reach ok = elim (Option-cases (get_elem? s.tasks i)) [
  | inl e ↦ rw (e, round, exec) reach
  | inr (c, e) ↦ elim (Option-cases (exec_task i o c s)) [
    | inl x ↦ rw (e, round, exec, x) reach
    | inr (t, x) ↦ rw (e, round, exec, x) (next reach (run i o c e (ground arith) x))
  ]
]

pub schedule-Reach :
    (rule : Rule) (s0 s : System) (rs : List Round)
    → Reach rule s0 s
    → permits rule rs s ≡ true
    → Reach rule s0 (schedule rs s)
unfolding permits schedule
schedule-Reach rule s0 s [] reach ok = reach
schedule-Reach rule s0 s (r ∷ rs) reach ok =
    schedule-Reach rule s0 (round r s) rs (round-Reach rule s0 s r reach (ground arith))
      (ground arith)
