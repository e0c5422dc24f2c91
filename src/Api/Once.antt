-- ===== src/Api/Once.antt =====
-- src/py-inference/src/inference/api_server.py: many requests for one model switch to it once.
use openmodel.Base.{
  ◌≡◌, refl, ◌≤◌, ◌<◌, ℕ, ◌+◌, Bool, true, false, not, ◌||◌, List, [], ◌∷◌, some, arith, get_elem?,
  is_some, bit, total, total-append, total-set, le-total, Option-cases, inl, inr, all, ltb,
}
use openmodel.Base.Text.{Text, same, same_iff}
use openmodel.Api.Names.{model_matches}
use openmodel.Api.Switch.{
  SwitchPhase, asked, at_lock, fetching, switching, served, unswitched, unfetched, failed,
  SwitchTask, SwitchEvent, resumed, renamed, restored, returned, abandoned, raised, fetched,
  SwitchSystem, moved, switch_event, SwitchRound, arrives, happens, switch_round, switch_schedule,
  switch_init,
}

abbrev phase_fetches : SwitchPhase → ℕ
phase_fetches fetching = 1
phase_fetches _ = 0

abbrev phase_switches : SwitchPhase → ℕ
phase_switches (switching p old) = 1
phase_switches _ = 0

abbrev phase_fails : SwitchPhase → ℕ
phase_fails failed = 1
phase_fails unswitched = 1
phase_fails _ = 0

abbrev fetches : SwitchTask → ℕ
fetches t = phase_fetches t.phase

abbrev switches : SwitchTask → ℕ
switches t = phase_switches t.phase

-- 1 for a request whose switch raised or was given up.
abbrev pub fails : SwitchTask → ℕ
fails t = phase_fails t.phase

abbrev phase_ready : Text → SwitchPhase → ℕ
phase_ready m (switching p old) = bit (not (model_matches p m))
phase_ready m _ = 0

-- 1 for a task of another model, or one that switches to a path of another model.
abbrev strays : Text → SwitchTask → ℕ
strays m t = bit (not (same t.model m)) + phase_ready m t.phase

-- The request is for the model `m`, and `ensure_model` gives paths that match it.
abbrev pub concerns : Text → SwitchRound → Bool
concerns m (arrives n) = same n m
concerns m (happens i (fetched path)) = model_matches path m
concerns m (happens i e) = true

record IsSwitching (m : Text) (s : SwitchSystem) : Type 0 where
  exclusive : total fetches s.tasks + total switches s.tasks ≡ bit (is_some s.lock)
  unmatched : 0 < total fetches s.tasks → model_matches s.current m ≡ false
  bounded :
      s.calls
      ≤ total fails s.tasks + bit (model_matches s.current m || ltb 0 (total switches s.tasks))
  pure : total (strays m) s.tasks ≡ 0

-- What the weights of all tasks come to when task `i` moves from `p` to `q`.
record Moved (m : Text) (s : SwitchSystem) (i : ℕ) (n : Text) (p q : SwitchPhase) : Type 0 where
  fetching_total :
      total fetches (moved s i n q).tasks + phase_fetches p
      ≡ total fetches s.tasks + phase_fetches q
  switching_total :
      total switches (moved s i n q).tasks + phase_switches p
      ≡ total switches s.tasks + phase_switches q
  failing_total :
      total fails (moved s i n q).tasks + phase_fails p ≡ total fails s.tasks + phase_fails q
  straying_total :
      total (strays m) (moved s i n q).tasks + phase_ready m p
      ≡ total (strays m) s.tasks + phase_ready m q
  was_fetching : phase_fetches p ≤ total fetches s.tasks
  was_switching : phase_switches p ≤ total switches s.tasks
  same_model : total (strays m) s.tasks ≡ 0 → (n ≡ m) × (phase_ready m p ≡ 0)

moved_lem :
    (m : Text) (s : SwitchSystem) (i : ℕ) (n : Text) (p q : SwitchPhase)
    → get_elem? s.tasks i ≡ some (record { model = n; phase = p })
    → Moved m s i n p q
moved_lem m s i n p q at =
    let t : SwitchTask = record { model = n; phase = q } in
    record {
      fetching_total = total-set fetches s.tasks i t at;
      switching_total = total-set switches s.tasks i t at;
      failing_total = total-set fails s.tasks i t at;
      straying_total = omega (arith, total-set (strays m) s.tasks i t at);
      was_fetching = le-total fetches s.tasks i at;
      was_switching = le-total switches s.tasks i at;
      same_model = λ h. ground (arith, le-total (strays m) s.tasks i at, same_iff n m);
    }

switch_event-IsSwitching :
    (m : Text) (has_manager : Bool) (i : ℕ) (e : SwitchEvent) (n : Text) (p : SwitchPhase)
    (s : SwitchSystem)
    → get_elem? s.tasks i ≡ some (record { model = n; phase = p })
    → concerns m (happens i e) ≡ true
    → IsSwitching m s
    → IsSwitching m (switch_event has_manager i e n p s)
unfolding switch_event
switch_event-IsSwitching m k i resumed n asked s at ok v = record {
  exclusive = ground (arith, moved_lem m s i n asked served at, moved_lem m s i n asked at_lock at);
  unmatched = ground (arith, moved_lem m s i n asked served at, moved_lem m s i n asked at_lock at);
  bounded = ground (arith, moved_lem m s i n asked served at, moved_lem m s i n asked at_lock at);
  pure = ground (arith, moved_lem m s i n asked served at, moved_lem m s i n asked at_lock at);
}
switch_event-IsSwitching m k i resumed n at_lock s at ok v =
    let a = moved_lem m s i n at_lock served at in
    let b = moved_lem m s i n at_lock fetching at in
    let (x, y) = a.same_model v.pure in
    record {
      exclusive = ground arith;
      unmatched = λ h. ground arith;
      bounded = ground arith;
      pure = ground arith;
    }
switch_event-IsSwitching m k i (fetched path) n fetching s at ok v =
    let a = moved_lem m s i n fetching (switching path s.current) at in
    record {
      exclusive = ground arith;
      unmatched = λ h. ground arith;
      bounded = ground arith;
      pure = ground arith;
    }
switch_event-IsSwitching m k i raised n fetching s at ok v =
    let a = moved_lem m s i n fetching unfetched at in
    record {
      exclusive = ground arith;
      unmatched = λ h. ground arith;
      bounded = ground arith;
      pure = ground arith;
    }
switch_event-IsSwitching m k i renamed n (switching path old) s at ok v =
    let a = moved_lem m s i n (switching path old) served at in
    let (x, y) = a.same_model v.pure in
    record {
      exclusive = v.exclusive;
      unmatched = λ h. ground arith;
      bounded = ground arith;
      pure = v.pure;
    }
switch_event-IsSwitching m k i restored n (switching path old) s at ok v =
    let a = moved_lem m s i n (switching path old) served at in
    record {
      exclusive = v.exclusive;
      unmatched = λ h. ground arith;
      bounded = ground arith;
      pure = v.pure;
    }
switch_event-IsSwitching m k i returned n (switching path old) s at ok v =
    let a = moved_lem m s i n (switching path old) served at in
    let (x, y) = a.same_model v.pure in
    record {
      exclusive = ground arith;
      unmatched = λ h. ground arith;
      bounded = ground arith;
      pure = ground arith;
    }
switch_event-IsSwitching m k i abandoned n (switching path old) s at ok v =
    let a = moved_lem m s i n (switching path old) unswitched at in
    record {
      exclusive = ground arith;
      unmatched = λ h. ground arith;
      bounded = ground arith;
      pure = ground arith;
    }
switch_event-IsSwitching m k i raised n (switching path old) s at ok v =
    let a = moved_lem m s i n (switching path old) failed at in
    record {
      exclusive = ground arith;
      unmatched = λ h. ground arith;
      bounded = ground arith;
      pure = ground arith;
    }
switch_event-IsSwitching m k i _ n _ s at ok v = v

switch_round-IsSwitching :
    (m : Text) (has_manager : Bool) (r : SwitchRound) (s : SwitchSystem)
    → concerns m r ≡ true
    → IsSwitching m s
    → IsSwitching m (switch_round has_manager r s)
unfolding switch_round
switch_round-IsSwitching m k (arrives n) s ok v =
    let t : SwitchTask = record { model = n; phase = asked } in
    record {
      exclusive = omega (
        arith,
        total-append fetches s.tasks (t ∷ []),
        total-append switches s.tasks (t ∷ []),
        v.exclusive,
      );
      unmatched = λ h. v.unmatched (omega (arith, total-append fetches s.tasks (t ∷ [])));
      bounded =
          ground
            (arith, total-append switches s.tasks (t ∷ []), total-append fails s.tasks (t ∷ []));
      pure = ground (arith, total-append (strays m) s.tasks (t ∷ []));
    }
switch_round-IsSwitching m k (happens i e) s ok v = elim (Option-cases (get_elem? s.tasks i)) [
  | inl none_there ↦ rw (none_there, switch_round) v
  | inr (t, at) ↦ rw (at, switch_round) (switch_event-IsSwitching m k i e t.model t.phase s at ok v)
]

switch_schedule-IsSwitching :
    (m : Text) (has_manager : Bool) (rs : List SwitchRound) (s : SwitchSystem)
    → all (concerns m) rs ≡ true
    → IsSwitching m s
    → IsSwitching m (switch_schedule has_manager rs s)
unfolding switch_schedule
switch_schedule-IsSwitching m k [] s ok v = v
switch_schedule-IsSwitching m k (r ∷ rs) s ok v =
    switch_schedule-IsSwitching m k rs (switch_round k r s) (ground arith)
      (switch_round-IsSwitching m k r s (ground arith) v)

-- However many requests for one model arrive and however they interleave, where the manager's paths
-- match the model: `switch_model` is called at most once more often than such a call raised or was
-- given up by the pool for a pause; downloads that failed do not count. So a switch that succeeds is
-- never done twice.
pub switch_once :
    (m current : Text) (has_manager : Bool) (rs : List SwitchRound)
    → all (concerns m) rs ≡ true
    → let s = switch_schedule has_manager rs (switch_init current) in
      s.calls ≤ total fails s.tasks + 1
unfolding switch_init
switch_once m current k rs ok =
    let v = switch_schedule-IsSwitching m k rs (switch_init current) ok (record {
      exclusive = refl;
      unmatched = λ h. ground arith;
      bounded = ground arith;
      pure = refl;
    }) in
    ground (arith, v.bounded)
