-- ===== src/Engine/Gpu.antt =====
-- src/py-inference/src/inference/engine.py: `_query_gpu_free_ratio`, and the wait for free memory over the
-- answers of nvidia-smi. A ratio is a number of per cent, rounded down, which compares with a whole
-- percentage as the ratio does.
use openmodel.Base.{
  ◌≡◌, refl, ◌∙◌, sym, ℕ, zero, suc, ◌*◌, ◌/◌, arith, Bool, true, false, ◌&&◌, List, [], ◌∷◌, map,
  any, Option, none, some, ltb, leb, if◌then◌else◌,
}
use native.Mathlib.Nat.{le-div_iff_mul-le}
use openmodel.Engine.Vram.{
  Sample, wait_for_vram, vram_released, unverified, shows_free, first_three_fail, vram_wait_sound,
}

-- What running nvidia-smi gives: it raises or times out, or its return code with the two fields of its
-- line as numbers of MiB, where they can be read as such.
pub data SmiAnswer : Type 0 where
  smi_raised : SmiAnswer
  smi_answer : ℕ → Option ℕ → Option ℕ → SmiAnswer

-- The device that is asked for.
unfoldable pub smi_device : Option (List ℕ) → ℕ
smi_device (some (d ∷ ds)) = d
smi_device _ = 0

free_ratio_of : ℕ → ℕ → Option ℕ
free_ratio_of free total = if ltb 0 total then some (free * 100 / total) else none

unfoldable pub query_gpu_free_ratio : SmiAnswer → Option ℕ
unfolding free_ratio_of
query_gpu_free_ratio (smi_answer zero (some free) (some total)) = free_ratio_of free total
query_gpu_free_ratio _ = none

-- A turn of the loop: the time at its test, and the answer.
abbrev pub SmiTurn : Type 0
SmiTurn = ℕ × SmiAnswer

abbrev pub reading : SmiTurn → Sample
reading t = record { now = t.0; free_ratio = query_gpu_free_ratio t.1 }

-- nvidia-smi says that at least this percentage of the memory is free.
abbrev pub is_free : ℕ → SmiAnswer → Bool
is_free needed (smi_answer zero (some free) (some total)) =
    ltb 0 total && leb (needed * total) (free * 100)
is_free needed _ = false

leb-ratio :
    (needed free total : ℕ)
    → ltb 0 total ≡ true
    → leb needed (free * 100 / total) ≡ leb (needed * total) (free * 100)
leb-ratio needed free total h =
    let (down, up) = le-div_iff_mul-le {k = total} {x = needed} {y = free * 100} (ground arith) in
    ground (arith, down, up)

is_free-reading :
    (needed deadline : ℕ) (t : SmiTurn)
    → shows_free needed deadline (reading t) ≡ (ltb t.0 deadline && is_free needed t.1)
unfolding query_gpu_free_ratio
is_free-reading needed deadline (now, SmiAnswer.smi_raised) = ground arith
is_free-reading needed deadline (now, smi_answer (suc code) free total) = ground arith
is_free-reading needed deadline (now, smi_answer zero none total) = ground arith
is_free-reading needed deadline (now, smi_answer zero (some free) none) = ground arith
is_free-reading needed deadline (now, smi_answer zero (some free) (some total)) =
    ground (arith, leb-ratio needed free total)

any-reading :
    (needed deadline : ℕ) (ts : List SmiTurn)
    → any (shows_free needed deadline) (map reading ts)
      ≡ any (λ t. ltb t.0 deadline && is_free needed t.1) ts
any-reading needed deadline [] = refl
any-reading needed deadline (t ∷ ts) =
    rw (is_free-reading needed deadline t, any-reading needed deadline ts) refl

-- The wait reports that memory is free only if, before its deadline, nvidia-smi ended well with a free
-- memory that is at least the needed percentage of the total; and it gives up on nvidia-smi only if its
-- first three runs failed, so a failure after any answer never makes it go on early.
pub vram_verified :
    (needed deadline : ℕ) (ts : List SmiTurn)
    → (wait_for_vram needed deadline false 0 (map reading ts) ≡ some vram_released
        → any (λ t. ltb t.0 deadline && is_free needed t.1) ts ≡ true)
      × (wait_for_vram needed deadline false 0 (map reading ts) ≡ some unverified
          → first_three_fail deadline (map reading ts) ≡ true)
vram_verified needed deadline ts =
    let (found, gave_up) = vram_wait_sound needed deadline (map reading ts) in
    (λ h. sym (any-reading needed deadline ts) ∙ found h, gave_up)
