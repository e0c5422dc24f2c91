-- ===== src/Engine/Vram.antt =====
-- src/py-inference/src/inference/engine.py: `_wait_for_vram_release`, over the answers of nvidia-smi.
-- A ratio of free memory is a number in any fixed unit, the same for the answer and for what is
-- needed.
use openmodel.Base.{
  ℕ, suc, ◌≡◌, Bool, true, false, not, ◌&&◌, List, [], ◌∷◌, Option, none, some, ltb, leb, any,
  is_some, arith,
}

-- One turn of the loop: the time at its test, and what `_query_gpu_free_ratio` gives.
pub record Sample : Type 0 where
  pub now : ℕ
  pub free_ratio : Option ℕ

-- How the wait ends: memory is free, nvidia-smi never worked, or the time is over.
pub data WaitEnd : Type 0 where
  vram_released unverified timed_out : WaitEnd

-- `none`: the samples are used up and the loop still waits.
unfoldable pub wait_for_vram : ℕ → ℕ → Bool → ℕ → List Sample → Option WaitEnd
wait_for_vram needed deadline worked failures [] = none
wait_for_vram needed deadline worked failures (s ∷ ss) = elim (ltb s.now deadline) [
  | false ↦ some timed_out
  | true ↦ elim s.free_ratio [
    | none ↦ elim (not worked && leb 3 (suc failures)) [
      | true ↦ some unverified
      | false ↦ wait_for_vram needed deadline worked (suc failures) ss
    ]
    | some r ↦ elim (leb needed r) [
      | true ↦ some vram_released
      | false ↦ wait_for_vram needed deadline true 0 ss
    ]
  ]
]

-- The sample shows enough free memory in time.
abbrev pub shows_free : ℕ → ℕ → Sample → Bool
shows_free needed deadline s =
    ltb s.now deadline && elim s.free_ratio [ none ↦ false | some r ↦ leb needed r ]

released_lem :
    (needed deadline : ℕ) (worked : Bool) (failures : ℕ) (ss : List Sample)
    → wait_for_vram needed deadline worked failures ss ≡ some vram_released
    → any (shows_free needed deadline) ss ≡ true
unfolding wait_for_vram
released_lem needed deadline worked failures [] h = cc
released_lem needed deadline worked failures (s ∷ ss) h = ground (
  arith,
  released_lem needed deadline worked (suc failures) ss,
  released_lem needed deadline true 0 ss,
)

never_unverified :
    (needed deadline failures : ℕ) (ss : List Sample)
    → wait_for_vram needed deadline true failures ss ≡ some unverified
    → false ≡ true
unfolding wait_for_vram
never_unverified needed deadline failures [] h = cc
never_unverified needed deadline failures (s ∷ ss) h = ground (
  arith,
  never_unverified needed deadline (suc failures) ss,
  never_unverified needed deadline 0 ss,
)

-- The query failed, in time.
abbrev pub fails_in_time : ℕ → Sample → Bool
fails_in_time deadline s = ltb s.now deadline && not (is_some s.free_ratio)

-- The first three queries failed.
abbrev pub first_three_fail : ℕ → List Sample → Bool
first_three_fail deadline (a ∷ b ∷ c ∷ ss) =
    fails_in_time deadline a && (fails_in_time deadline b && fails_in_time deadline c)
first_three_fail deadline _ = false

-- The wait reports that memory is free only if some answer in time showed enough of it; and it
-- gives up on nvidia-smi only if the first three queries failed, so a failure after any answer
-- never makes it go on early.
pub vram_wait_sound :
    (needed deadline : ℕ) (ss : List Sample)
    → (wait_for_vram needed deadline false 0 ss ≡ some vram_released
        → any (shows_free needed deadline) ss ≡ true)
      × (wait_for_vram needed deadline false 0 ss ≡ some unverified
          → first_three_fail deadline ss ≡ true)
unfolding wait_for_vram
vram_wait_sound needed deadline ss = (released_lem needed deadline false 0 ss, gives_up ss)
  where
    gives_up :
        (ss : List Sample)
        → wait_for_vram needed deadline false 0 ss ≡ some unverified
        → first_three_fail deadline ss ≡ true
    gives_up [] h = cc
    gives_up (a ∷ []) h = ground (arith, never_unverified needed deadline 0 [])
    gives_up (a ∷ b ∷ []) h =
        ground (
          arith,
          never_unverified needed deadline 0 (b ∷ []),
          never_unverified needed deadline 0 [],
        )
    gives_up (a ∷ b ∷ c ∷ ss) h = ground (
      arith,
      never_unverified needed deadline 0 (b ∷ c ∷ ss),
      never_unverified needed deadline 0 (c ∷ ss),
      never_unverified needed deadline 0 ss,
    )

-- The wait ends at the latest at the first sample after the deadline, whatever nvidia-smi answers.
vram_wait_ends :
    (needed deadline : ℕ) (worked : Bool) (failures : ℕ) (ss : List Sample)
    → any (λ s. leb deadline s.now) ss ≡ true
    → is_some (wait_for_vram needed deadline worked failures ss) ≡ true
unfolding wait_for_vram
vram_wait_ends needed deadline worked failures [] h = cc
vram_wait_ends needed deadline worked failures (s ∷ ss) h = ground (
  arith,
  vram_wait_ends needed deadline worked (suc failures) ss,
  vram_wait_ends needed deadline true 0 ss,
)
