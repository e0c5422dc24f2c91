-- ===== src/Engine/ProcessExamples.antt =====
-- Two engines of one process, and the theorems about their subprocesses.
use openmodel.Base.{◌≡◌, refl, true, not, ◌==◌, ℕ, List, [], ◌∷◌, Option, none, some, filter, All}
use openmodel.Engine.State.{VllmEngine, new_engine}
use openmodel.Engine.Creation.{
  Child, EngineProcess, enters, spawns, creates, process_event, new_process, Happens, begun,
  happens_next, effective_max_model_len,
}
use openmodel.Base.{map, any, ltb, ◌&&◌, false}
use openmodel.Base.Text.{codes, contains, starts_with}
use openmodel.Engine.Sampling.{is_engine_dead_error, sampling_kwargs, one_stop}
use openmodel.Engine.Vram.{wait_for_vram, vram_released, unverified, first_three_fail}
use openmodel.Engine.Gpu.{
  SmiTurn, smi_raised, smi_answer, reading, is_free, query_gpu_free_ratio, vram_verified,
}
use openmodel.Engine.Kills.{children_attributed, destroy_spares_siblings, Serves}

abbrev two_gpus : List (Option (List ℕ))
two_gpus = some (0 ∷ []) ∷ some (1 ∷ []) ∷ []

abbrev on_gpu : ℕ → ℕ → Child
on_gpu pid i = record { pid = pid; spawner = i; visible = some (i ∷ []) }

abbrev core_on : ℕ → ℕ → ℕ → VllmEngine
core_on h i pid = record (new_engine (some (i ∷ []))) { handle = some h; child_pids = pid ∷ [] }

-- The first engine has its core, and the second one is under construction.
abbrev half_built : EngineProcess
half_built = record {
  engines = core_on 7 0 100 ∷ new_engine (some (1 ∷ [])) ∷ [];
  section = some (record { creator = 1; pre_existing = 100 ∷ [] });
  cuda_visible_devices = some (1 ∷ []);
  children = on_gpu 200 1 ∷ on_gpu 100 0 ∷ [];
}

abbrev both_built : EngineProcess
both_built = record half_built { engines = core_on 7 0 100 ∷ core_on 8 1 200 ∷ []; section = none }

half_built-Happens : Happens (new_process two_gpus none) half_built
unfolding new_engine process_event
half_built-Happens =
    happens_next (spawns 200)
      (happens_next (enters 1 true)
        (happens_next (creates 7 true)
          (happens_next (spawns 100) (happens_next (enters 0 true) begun refl refl) refl refl) refl
          refl)
        refl refl)
      refl refl

both_built-Happens : Happens (new_process two_gpus none) both_built
unfolding new_engine process_event
both_built-Happens = happens_next (creates 8 true) half_built-Happens refl refl

children_attributed_example : All (Serves 1 (core_on 8 1 200)) both_built.children
children_attributed_example = children_attributed two_gpus none 1 both_built-Happens refl refl

-- The first engine is destroyed meanwhile.
abbrev first_reaped : EngineProcess
first_reaped = record half_built {
  engines = new_engine (some (0 ∷ [])) ∷ new_engine (some (1 ∷ [])) ∷ [];
  children = on_gpu 200 1 ∷ [];
}

destroy_spares_siblings_example :
    first_reaped.children ≡ filter (λ c. not (c.spawner == 0)) half_built.children
unfolding new_engine process_event
destroy_spares_siblings_example =
    destroy_spares_siblings two_gpus none 0 half_built-Happens refl refl

model_len :
    (effective_max_model_len 4096 (some 2048) ≡ 2048) × (effective_max_model_len 4096 none ≡ 4096)
unfolding effective_max_model_len
model_len = (refl, refl)

-- vLLM's exception, and one that is none of it.
dead_error :
    (is_engine_dead_error (codes "EngineDeadError") ≡ true)
    × (is_engine_dead_error (codes "RuntimeError") ≡ false)
unfolding is_engine_dead_error contains starts_with
dead_error = (refl, refl)

-- A stop text becomes a list of one, and what is missing has a default.
sampled :
    sampling_kwargs (record {
      max_tokens = none;
      temperature = some 0;
      top_p = none;
      stop = one_stop (codes "END");
    })
    ≡ record { max_tokens = 256; temperature = 0; top_p = 95; stop = some (codes "END" ∷ []) }
unfolding sampling_kwargs
sampled = refl

-- nvidia-smi fails twice, then says that 10 of 24 GB are free, then 23.
abbrev smi_turns : List SmiTurn
smi_turns =
    (0, smi_raised)
    ∷ (1, smi_answer 9 none none)
    ∷ (2, smi_answer 0 (some 10240) (some 24576))
    ∷ (3, smi_answer 0 (some 23552) (some 24576))
    ∷ []

smi_waits : wait_for_vram 85 20 false 0 (map reading smi_turns) ≡ some vram_released
unfolding wait_for_vram query_gpu_free_ratio
smi_waits = refl

vram_verified_example :
    (wait_for_vram 85 20 false 0 (map reading smi_turns) ≡ some vram_released
      → any (λ t. ltb t.0 20 && is_free 85 t.1) smi_turns ≡ true)
    × (wait_for_vram 85 20 false 0 (map reading smi_turns) ≡ some unverified
        → first_three_fail 20 (map reading smi_turns) ≡ true)
vram_verified_example = vram_verified 85 20 smi_turns
