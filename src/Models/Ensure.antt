-- ===== src/Models/Ensure.antt =====
-- src/py-inference/src/model/manager.py: what `ensure_model` promises of the path that it returns.
use openmodel.Base.{
  ◌≡◌, ◌≢◌, ◌∙◌, refl, ap, true, false, List, ◌++◌, Option, some, arith, if◌then◌else◌, Bool-cases,
  inl, inr,
}
use openmodel.Base.Text.{Text, codes, same}
use openmodel.Models.Cache.{
  Node, missing, no_directory, directory, is_weight, has_file, is_model_complete, exists,
  ModelFiles, Stuck, left_entries,
}
use openmodel.Models.Download.{download_weights}
use openmodel.Models.Crash.{any-append, removed-incomplete}
use openmodel.Models.Outcome.{download_result}
use openmodel.Models.Manager.{
  from_cache, downloaded, ensure_raised, FocAnswers, EnsureRun, ensure_model, from_foc,
  downloaded_run, cleared,
}

-- What a download of the archive leaves in the cache.
abbrev pub filled_cache : FocAnswers → ModelFiles → List Text
filled_cache a m = left_entries a.removals.old_extraction m.extracting ++ a.archive

abbrev Sound : Text → FocAnswers → Option Text → ModelFiles → EnsureRun → Type 0
Sound id a before m r =
    (r.result ≡ from_cache → (is_model_complete r.files.cache ≡ true) × (r.files ≡ m))
    × (r.result ≡ downloaded → r.files.cache ≡ directory (filled_cache a m))
    × (r.result ≡ ensure_raised
        → (is_model_complete r.files.cache ≡ false) × (r.loaded_model ≡ before))
    × (r.result ≢ ensure_raised → r.loaded_model ≡ some id)

from_foc-Sound :
    (id : Text) (a : FocAnswers) (before : Option Text) (m n : ModelFiles)
    → is_model_complete n.cache ≡ false
    → n.extracting ≡ m.extracting
    → Sound id a before m (from_foc id a before n)
unfolding from_foc downloaded_run
from_foc-Sound id a before m n h alike = elim (Bool-cases a.available) [
  | inr no_foc ↦ rw no_foc (
    λ e. absurd (ground arith),
    λ e. absurd (ground arith),
    λ e. absurd (ground arith),
    λ e. refl,
  )
  | inl there ↦ elim (Bool-cases a.resolved) [
    | inr no_cids ↦
        rw (there, no_cids)
          (
            λ e. absurd (ground arith),
            λ e. absurd (ground arith),
            λ e. (h, refl),
            λ e. absurd (e refl),
          )
    | inl cids ↦
        let (ok, back, bad, gone) =
          download_result a.archive a.removals a.bridge a.extraction n h in
        elim (Bool-cases (download_weights a.archive a.removals a.bridge a.extraction n).returned) [
          | inl done ↦
              rw (there, cids, done)
                (
                  λ e. absurd (ground arith),
                  λ e.
                      (ok done).0
                      ∙ ap (λ x. directory (left_entries a.removals.old_extraction x ++ a.archive))
                          alike,
                  λ e. absurd (ground arith),
                  λ e. refl,
                )
          | inr broke ↦
              rw (there, cids, broke)
                (
                  λ e. absurd (ground arith),
                  λ e. absurd (ground arith),
                  λ e. (bad broke, refl),
                  λ e. absurd (e refl),
                )
        ]
  ]
]

-- What is there when FOC is asked: the cache as `rmtree` left it.
swept :
    (k : Stuck) (m : ModelFiles) (n : Node)
    → is_model_complete n ≡ false
    → let o = record m { cache = n } in
      let r = if exists n then cleared k o else o in
      (is_model_complete r.cache ≡ false) × (r.extracting ≡ m.extracting)
swept k m missing h = (h, refl)
swept k m no_directory h = (removed-incomplete k no_directory h, refl)
swept k m (directory fs) h = (removed-incomplete k (directory fs) h, refl)

ensure_model-Sound :
    (id : Text) (a : FocAnswers) (before : Option Text) (m : ModelFiles)
    → Sound id a before m (ensure_model id a before m)
unfolding ensure_model
ensure_model-Sound id a before m = elim (Bool-cases (is_model_complete m.cache)) [
  | inl c ↦ rw c (λ e. (c, refl), λ e. absurd (ground arith), λ e. absurd (ground arith), λ e. refl)
  | inr c ↦
      let (incomplete, alike) = swept a.stuck m m.cache c in
      rw c (
        from_foc-Sound id a before m (if exists m.cache then cleared a.stuck m else m) incomplete
          alike)
]

found_again :
    (id : Text) (b : FocAnswers) (before : Option Text) (m : ModelFiles)
    → is_model_complete m.cache ≡ true
    → ensure_model id b before m ≡ record { result = from_cache; files = m; loaded_model = some id }
unfolding ensure_model
found_again id b before m h = rw h refl

complete-append :
    (xs ys : List Text)
    → is_model_complete (directory ys) ≡ true
    → is_model_complete (directory (xs ++ ys)) ≡ true
unfolding is_model_complete has_file
complete-append xs ys h =
    ground (arith, any-append (λ f. same f (codes "config.json")) xs ys, any-append is_weight xs ys)

-- A path from the cache holds a complete model, and the call changed nothing. A downloaded path holds
-- the whole archive, and else only what could not be removed of an old extraction. When the call raises, the cache holds no complete model and the model that was
-- recorded as loaded is still recorded; else the requested one is. If the archive is a complete model,
-- then the next call finds it in the cache, whatever FOC answers.
pub ensure_model_sound :
    (id : Text) (a : FocAnswers) (before : Option Text) (m : ModelFiles)
    → let r = ensure_model id a before m in
      (r.result ≡ from_cache → (is_model_complete r.files.cache ≡ true) × (r.files ≡ m))
      × (r.result ≡ downloaded → r.files.cache ≡ directory (filled_cache a m))
      × (r.result ≡ ensure_raised
          → (is_model_complete r.files.cache ≡ false) × (r.loaded_model ≡ before))
      × (r.result ≢ ensure_raised → r.loaded_model ≡ some id)
      × (r.result ≡ downloaded
          → is_model_complete (directory a.archive) ≡ true
          → (b : FocAnswers) (id' : Text)
          → ensure_model id' b r.loaded_model r.files
            ≡ record { result = from_cache; files = r.files; loaded_model = some id' })
ensure_model_sound id a before m =
    let (cached, fetched, failed, recorded) = ensure_model-Sound id a before m in
    (
      cached,
      fetched,
      failed,
      recorded,
      λ e whole b id'. found_again id' b _ (ensure_model id a before m).files (
          rw (fetched e) (
            complete-append (left_entries a.removals.old_extraction m.extracting) a.archive whole)),
    )
