-- ===== src/Service/Obeyed.antt =====
-- A yield that the listener has recorded against what the engines were told.
use openmodel.Base.{
  ℕ, ◌<◌, ◌∙◌, ◌≡◌, refl, ap, ◌⊎◌, inl, inr, arith, Bool, true, false, List, [], ◌∷◌, ◌++◌, map,
  none, some, String, length,
}
use openmodel.Pool.State.{Pool, multi_instance, tensor_parallel, request_pause}
use openmodel.Pool.Fanout.{EngineCall, switches, PoolTask, switch_all, continue, indices}
use openmodel.Listener.Poll.{Command, Input, resume, pause}
use openmodel.Listener.Fence.{fence_all}
use openmodel.Service.Told.{told, told-switches, append_none}
use openmodel.Service.Dispatch.{
  PoolCall, resumes_pool, pauses_pool, Service, carry_out, carry_out_all,
}

-- The last coroutine dispatched is a pause.
abbrev pub ends_in_pause : PoolCall → List PoolCall → Bool
ends_in_pause resumes_pool [] = false
ends_in_pause (pauses_pool u) [] = true
ends_in_pause q (r ∷ rs) = ends_in_pause r rs

-- The pool obeys a yield, or is about to: once the coroutines dispatched have all started, its loops are
-- asked to stop and every engine was last told to pause.
abbrev pub Obeys : List PoolCall → Pool → List EngineCall → Type 0
Obeys [] p calls =
    (p.pause_requested ≡ true) × ((i : ℕ) → i < length p.engines → told p.mode i calls ≡ some true)
Obeys (q ∷ qs) p calls = ends_in_pause q qs ≡ true

-- The coroutines that run leave the flag and call nothing, while they are asked to stop.
pub continue_quiet :
    (t : PoolTask) (p : Pool)
    → p.pause_requested ≡ true
    → ((continue t p).calls ≡ [])
      × ((continue t p).pool.pause_requested ≡ true)
      × ((continue t p).pool.engines ≡ p.engines)
      × ((continue t p).pool.mode ≡ p.mode)
unfolding continue
continue_quiet (PoolTask.resume_at i) p h = ground arith
continue_quiet (PoolTask.switch_at path i) p h = ground arith
continue_quiet _ p h = ground arith

Mode-cases : (p : Pool) → (p.mode ≡ multi_instance) ⊎ (p.mode ≡ tensor_parallel)
Mode-cases p = ground arith

-- A switch tells no engine to resume or to pause, and in a pool of several engines calls none, while
-- the pool's loops are asked to stop.
pub switch_quiet :
    (path : String) (p : Pool)
    → p.pause_requested ≡ true
    → ((switch_all path p).pool.pause_requested ≡ true)
      × ((switch_all path p).pool.engines ≡ p.engines)
      × ((switch_all path p).pool.mode ≡ p.mode)
      × ((i : ℕ) → told p.mode i (switch_all path p).calls ≡ none)
      × (p.mode ≡ multi_instance → (switch_all path p).calls ≡ [])
unfolding switch_all
switch_quiet path p h = elim (Mode-cases p) [
  | inl m ↦
      let none_made : (switch_all path p).calls ≡ [] = ground arith in
      (ground arith, ground arith, ground arith, λ i. ap (told p.mode i) none_made, λ k. none_made)
  | inr m ↦
      let all_made : (switch_all path p).calls ≡ map (switches path) (indices p) = ground arith in
      (
        ground arith,
        ground arith,
        ground arith,
        λ i. ap (told p.mode i) all_made ∙ rw m (told-switches i path (indices p)),
        λ k. absurd (ground arith),
      )
]

ends_with :
    (u : _) (r : PoolCall) (rs : List PoolCall) → ends_in_pause r (rs ++ pauses_pool u ∷ []) ≡ true
ends_with u r [] = ground arith
ends_with u r (x ∷ rs) = ends_with u x rs

Obeys-pause :
    (u : _) (q : List PoolCall) (p : Pool) (cs : List EngineCall)
    → Obeys (q ++ pauses_pool u ∷ []) p cs
Obeys-pause u [] p cs = refl
Obeys-pause u (r ∷ rs) p cs = ends_with u r rs

-- Calls that tell no engine anything keep what the pool obeys.
pub Obeys-calls :
    (q : List PoolCall) (p p' : Pool) (cs new : List EngineCall)
    → p'.pause_requested ≡ true
    → p'.engines ≡ p.engines
    → p'.mode ≡ p.mode
    → ((i : ℕ) → told p.mode i new ≡ none)
    → Obeys q p cs
    → Obeys q p' (cs ++ new)
Obeys-calls [] p p' cs new flag same like silent (on, told_all) =
    (flag, λ i h. rw like (append_none p.mode i cs new (silent i) ∙ told_all i (ground arith)))
Obeys-calls (q ∷ qs) p p' cs new flag same like silent v = v

heed_by : Command → Bool → Bool
heed_by resume f = false
heed_by Command.request_pause f = f
heed_by (pause u) f = true

pub heed_all : List Command → Bool → Bool
unfolding heed_by
heed_all [] f = f
heed_all (c ∷ cs) f = heed_all cs (heed_by c f)

pub heed-fence :
    (i : Input) (cs : List Command) (f g : Bool)
    → (f ≡ true → g ≡ true)
    → fence_all i cs f ≡ true
    → heed_all cs g ≡ true
unfolding heed_all heed_by
heed-fence i [] f g h k = h k
heed-fence i (resume ∷ cs) f g h k = heed-fence i cs false false (λ e. e) k
heed-fence i (Command.request_pause ∷ cs) f g h k = heed-fence i cs f g h k
heed-fence i (pause u ∷ cs) f g h k = heed-fence i cs _ true (λ e. refl) k

-- The same of a service.
abbrev pub ServiceObeys : Service → Type 0
ServiceObeys s = Obeys s.queue s.pool s.calls

Obeys-request :
    (q : List PoolCall) (p : Pool) (cs : List EngineCall)
    → Obeys q p cs
    → Obeys q (request_pause p) cs
unfolding request_pause
Obeys-request [] p cs (on, told_all) = (refl, told_all)
Obeys-request (q ∷ qs) p cs v = v

carry_out-Obeys :
    (c : Command) (s : Service) (f : Bool)
    → (f ≡ true → ServiceObeys s)
    → heed_by c f ≡ true
    → ServiceObeys (carry_out c s)
unfolding carry_out heed_by
carry_out-Obeys resume s f h k = absurd (ground arith)
carry_out-Obeys Command.request_pause s f h k = Obeys-request s.queue s.pool s.calls (h k)
carry_out-Obeys (pause u) s f h k = Obeys-pause u s.queue s.pool s.calls

pub carry_out_all-Obeys :
    (cs : List Command) (s : Service) (f : Bool)
    → (f ≡ true → ServiceObeys s)
    → heed_all cs f ≡ true
    → ServiceObeys (carry_out_all cs s)
unfolding carry_out_all heed_all
carry_out_all-Obeys [] s f h k = h k
carry_out_all-Obeys (c ∷ cs) s f h k =
    carry_out_all-Obeys cs (carry_out c s) (heed_by c f) (carry_out-Obeys c s f h) k

pub carry_out_all-listener :
    (cs : List Command) (s : Service) → (carry_out_all cs s).listener ≡ s.listener
unfolding carry_out_all carry_out
carry_out_all-listener [] s = refl
carry_out_all-listener (resume ∷ cs) s = carry_out_all-listener cs (carry_out resume s)
carry_out_all-listener (Command.request_pause ∷ cs) s =
    carry_out_all-listener cs (carry_out Command.request_pause s)
carry_out_all-listener (pause u ∷ cs) s = carry_out_all-listener cs (carry_out (pause u) s)
