-- ===== src/Models/Examples.antt =====
-- A model's files at a download, a registry, and the theorems of src/py-inference/src/model at them.
use openmodel.Base.{◌↔◌, arith, All, ◌≡◌, ◌≢◌, refl, true, false, List, [], ◌∷◌, ◌++◌, none, some}
use openmodel.Base.Text.{Text, codes, same, split, starts_with}
use openmodel.Models.Foc.{RealFocClient, many_cids, detailed}
use openmodel.Models.Cache.{missing, directory, is_model_complete, ModelFiles, Stuck, left_entries}
use openmodel.Models.Download.{fetched_tarball, extracted, Removals, download_weights}
use openmodel.Models.Crash.{download_crash_safe}
use openmodel.Models.Outcome.{Unpacks, download_result}
use openmodel.Models.Archive.{Member, plain, linked, safe_members}
use openmodel.Models.Confined.{Confined, safe_members-Confined}
use openmodel.Models.Manager.{FocAnswers, from_cache, downloaded, ensure_raised, ensure_model}
use openmodel.Models.Ensure.{filled_cache, ensure_model_sound}

abbrev archive : List Text
archive = codes "config.json" ∷ codes "model.safetensors" ∷ []

-- A download was killed before: the cache lacks the configuration, and an extraction was left.
abbrev broken_cache : ModelFiles
broken_cache = record {
  cache = directory (codes "model.safetensors" ∷ []);
  extracting = directory (codes "config.json" ∷ []);
  tarball = false;
}

abbrev nothing_stuck : Stuck
nothing_stuck = record { file = λ f. false; itself = false }

-- An old extraction keeps its configuration, and the tarball stays.
abbrev some_stuck : Removals
some_stuck = record {
  old_extraction = record { file = λ f. true; itself = true };
  old_cache = nothing_stuck;
  new_extraction = nothing_stuck;
  new_cache = nothing_stuck;
  unlinks = false;
}

download_crash_safe_example :
    All
      (λ t.
        is_model_complete t.cache ≡ true
        → t.cache
          ≡ directory (left_entries some_stuck.old_extraction broken_cache.extracting ++ archive))
      (download_weights archive some_stuck fetched_tarball extracted broken_cache).states
download_crash_safe_example =
    download_crash_safe archive some_stuck fetched_tarball extracted broken_cache
      (unfold is_model_complete same in refl)

download_result_example :
    let r = download_weights archive some_stuck fetched_tarball extracted broken_cache in
    (r.returned ≡ true
      → (r.files.cache
          ≡ directory (left_entries some_stuck.old_extraction broken_cache.extracting ++ archive))
        × (r.files.extracting ≡ missing)
        × (fetched_tarball ≡ fetched_tarball)
        × Unpacks archive some_stuck extracted broken_cache)
    × (fetched_tarball ≡ fetched_tarball
        → Unpacks archive some_stuck extracted broken_cache
        → r.returned ≡ true)
    × (r.returned ≡ false → is_model_complete r.files.cache ≡ false)
    × (some_stuck.unlinks ≡ true → r.files.tarball ≡ false)
download_result_example =
    download_result archive some_stuck fetched_tarball extracted broken_cache
      (unfold is_model_complete same in refl)

abbrev answers : FocAnswers
answers = record {
  available = true;
  resolved = true;
  archive = archive;
  bridge = fetched_tarball;
  extraction = extracted;
  removals = some_stuck;
  stuck = nothing_stuck;
}

ensure_model_sound_example :
    let r = ensure_model (codes "llama") answers none broken_cache in
    (r.result ≡ from_cache → (is_model_complete r.files.cache ≡ true) × (r.files ≡ broken_cache))
    × (r.result ≡ downloaded → r.files.cache ≡ directory (filled_cache answers broken_cache))
    × (r.result ≡ ensure_raised
        → (is_model_complete r.files.cache ≡ false) × (r.loaded_model ≡ none))
    × (r.result ≢ ensure_raised → r.loaded_model ≡ some (codes "llama"))
    × (r.result ≡ downloaded
        → is_model_complete (directory archive) ≡ true
        → (b : FocAnswers) (id' : Text)
        → ensure_model id' b r.loaded_model r.files
          ≡ record { result = from_cache; files = r.files; loaded_model = some id' })
ensure_model_sound_example = ensure_model_sound (codes "llama") answers none broken_cache

abbrev client : RealFocClient
client = record {
  bridge_url = codes "http://foc-bridge:3000";
  registry =
      (
        codes "llama",
        detailed (some (many_cids (codes "bafy1" ∷ codes "bafy2" ∷ []))) (some (codes "AB")),
      )
      ∷ [];
}

abbrev extracting_into : List Text
extracting_into = codes "models" ∷ codes "llama.extracting" ∷ []

abbrev file_at : Text → Member
file_at name = record { name = name; kind = plain }

abbrev members : List Member
members =
    file_at (codes "./config.json")
    ∷ file_at (codes "shards/../../llama.extracting/a.bin")
    ∷ record { name = codes "shards/b.bin"; kind = linked (codes "../a.bin") }
    ∷ []

safe_members-Confined_example :
    (safe_members extracting_into members ≡ true) ↔ All (Confined extracting_into) members
safe_members-Confined_example = safe_members-Confined extracting_into members (ground arith)

accepted : safe_members extracting_into members ≡ true
unfolding safe_members same split starts_with
accepted = refl

-- A directory beside the destination, whose name begins like it.
refused : safe_members extracting_into (file_at (codes "../llama.extracting2/a.bin") ∷ []) ≡ false
unfolding safe_members same split starts_with
refused = refl
