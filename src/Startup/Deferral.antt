-- ===== src/Startup/Deferral.antt =====
-- src/py-inference/src/main.py: what happens at startup while the GPU is not free.
use openmodel.Base.{
  ◌≡◌, refl, subst, ℕ, Bool, true, false, not, ◌==◌, List, [], ◌∷◌, ◌++◌, none, some, All, String,
  any, all, if◌then◌else◌, arith, Option-cases, inl, inr,
}
use openmodel.Engine.State.{VllmEngine, paused, is_available}
use openmodel.Pool.State.{Pool, new_pool, start_paused, any_available}
use openmodel.Listener.Poll.{
  Listener, Input, Command, resume, new_listener, poll, polls, gpu_state_available, is_state,
}
use openmodel.Config.Load.{ConfigFile, Environment, load_config}
use openmodel.Config.Build.{BuiltPool, create_engine_pool}
use openmodel.Startup.Boot.{
  SchedulerAnswer, gpu_available, has_stub, vllm_engines, pool_of, Booted, boot,
}
use openmodel.Startup.Fresh.{
  HoldsNothing, IsFresh, create_engine_pool-IsFresh, vllm_engines-HoldsNothing,
}

-- The engine waits for a resume to load the model at `path`.
abbrev pub IsDeferred : String → VllmEngine → Type 0
IsDeferred path e = (e.state ≡ paused) × (e.model ≡ path) × HoldsNothing e

start_paused-IsDeferred :
    (path : String) (p : Pool)
    → All HoldsNothing p.engines
    → All (IsDeferred path) (start_paused path p).engines
unfolding start_paused
start_paused-IsDeferred path p h = from p.engines h
  where
    from :
        (es : List VllmEngine)
        → All HoldsNothing es
        → All (IsDeferred path) (start_paused path (record p { engines = es })).engines
    from [] h = tt
    from (e ∷ es) (k, h) = ((refl, refl, k), from es h)

pool_of-HoldsNothing :
    (b : BuiltPool) {p : Pool}
    → pool_of b ≡ some p
    → All IsFresh b.engines
    → All HoldsNothing p.engines
unfolding pool_of new_pool
pool_of-HoldsNothing b pool h = elim (Option-cases (vllm_engines b.engines)) [
  | inl none_there ↦ absurd (ground arith)
  | inr (es, there) ↦
      subst (All HoldsNothing) (ground arith) (vllm_engines-HoldsNothing b.engines there h)
]

none_available :
    (path : String) (es : List VllmEngine) → All (IsDeferred path) es → any is_available es ≡ false
unfolding is_available
none_available path [] h = refl
none_available path (e ∷ es) ((s, m, k), h) = rw s (none_available path es h)

-- Whether a poll is not answered that the GPU is free.
abbrev pub not_free : Input → Bool
not_free i = elim i.reply [ none ↦ true | some s ↦ not (s == gpu_state_available) ]

abbrev pub is_resume : Command → Bool
is_resume resume = true
is_resume _ = false

abbrev last_free : Listener → Bool
last_free l = is_state l.last_state gpu_state_available

-- While the GPU was never free, nothing resumes the pool.
poll_waits :
    (i : Input) (l : Listener)
    → not_free i ≡ true
    → last_free l ≡ false
    → (last_free (poll i l).0 ≡ false) × (any is_resume (poll i l).1 ≡ false)
unfolding poll
poll_waits i l h k = ground arith

any-append :
    (xs ys : List Command)
    → any is_resume xs ≡ false
    → any is_resume ys ≡ false
    → any is_resume (xs ++ ys) ≡ false
any-append [] ys h k = k
any-append (x ∷ xs) ys h k = ground (arith, any-append xs ys)

polls_wait :
    (is : List Input) (l : Listener)
    → all not_free is ≡ true
    → last_free l ≡ false
    → (last_free (polls is l).0 ≡ false) × (any is_resume (polls is l).1 ≡ false)
unfolding polls
polls_wait [] l h k = (k, refl)
polls_wait (i ∷ is) l h k =
    let (still, quiet) = poll_waits i l (ground arith) k in
    let (after, rest) = polls_wait is (poll i l).0 (ground arith) still in
    (after, any-append (poll i l).1 (polls is (poll i l).0).1 quiet rest)

poll_resumes :
    (i : Input) (l : Listener)
    → last_free l ≡ false
    → i.reply ≡ some gpu_state_available
    → i.dispatched ≡ true
    → (poll i l).1 ≡ resume ∷ []
unfolding poll
poll_resumes i l k r d = ground arith

-- At startup with any configuration whose engines are VLLMEngines, if the GPU is not free or the
-- scheduler gives no answer: no engine is started; every engine is paused, with the path of the model
-- and nothing on the GPU, so the pool takes no request. Once a connection was made, the listener
-- starts; through any polls that do not find the GPU free it never resumes the pool, and the first
-- poll after them that does, if it can be put on the engine's loop, resumes it.
pub startup_defers :
    (detected : ℕ) (env : Environment) (raw : ConfigFile) (a : SchedulerAnswer) (path : String)
    {b : BuiltPool} {p : Pool}
    → create_engine_pool (load_config detected env raw).inference ≡ some b
    → pool_of b ≡ some p
    → gpu_available a ≡ false
    → (r : Booted) × (boot a (some path) p ≡ some r)
      × (r.starting ≡ [])
      × All (IsDeferred path) r.pool.engines
      × (any_available r.pool ≡ false)
      × (has_stub a ≡ true
          → (l : Listener) × (r.listener ≡ some l)
            × ((is : List Input)
                → all not_free is ≡ true
                → (any is_resume (polls is l).1 ≡ false)
                  × ((i : Input)
                      → i.reply ≡ some gpu_state_available
                      → i.dispatched ≡ true
                      → (poll i (polls is l).0).1 ≡ resume ∷ [])))
startup_defers detected env raw a path {b} {p} built pool off =
    let q = start_paused path p in
    let deferred : All (IsDeferred path) q.engines = start_paused-IsDeferred path p (
      pool_of-HoldsNothing b pool
        (create_engine_pool-IsFresh (load_config detected env raw).inference built)) in
    (
      record { pool = q; starting = []; listener = if has_stub a then some new_listener else none },
      (unfold boot in rw off refl),
      refl,
      deferred,
      (unfold any_available in none_available path q.engines deferred),
      λ stub. (
        new_listener,
        rw stub refl,
        λ is h.
            let (waits, quiet) = polls_wait is new_listener h (unfold new_listener in refl) in
            (quiet, λ i r d. poll_resumes i (polls is new_listener).0 waits r d),
      ),
    )
