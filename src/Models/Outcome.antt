-- ===== src/Models/Outcome.antt =====
-- src/py-inference/src/model/foc_real.py: what the files are when `download_weights` has ended.
use openmodel.Base.{◌≡◌, ◌≢◌, refl, true, false, List, ◌++◌, arith, Bool-cases, inl, inr}
use openmodel.Base.Text.{Text}
use openmodel.Models.Cache.{
  Node, missing, no_directory, directory, is_model_complete, ModelFiles, left_entries, removed,
}
use openmodel.Models.Download.{
  BridgeAnswer, unreachable, integrity_failure, bad_status, no_success, fetched_tarball, Extraction,
  extracted, extraction_broke, Removals, with_cache, with_extracting, clean_up, replaceable, Run,
  extract, unpack, download_weights,
}
use openmodel.Models.Crash.{removed-incomplete}

module _ (archive : List Text) (w : Removals) where
  -- How a run ends, with the entries `old` left beside the cache, if it returns just where `P` holds.
  record Ends (old : List Text) (P : Type 0) (r : Run) : Type 0 where
    tarball : w.unlinks ≡ true → r.files.tarball ≡ false
    cache : r.returned ≡ true → r.files.cache ≡ directory (old ++ archive)
    extracting : r.returned ≡ true → r.files.extracting ≡ missing
    incomplete : r.returned ≡ false → is_model_complete r.files.cache ≡ false
    only_if : r.returned ≡ true → P
    whenever : P → r.returned ≡ true

  -- The states passed before make no difference, nor does another form of the condition.
  Ends-after :
      {old : List Text} {P Q : Type 0} {r : Run} (ss : List ModelFiles)
      → (P → Q)
      → (Q → P)
      → Ends old P r
      → Ends old Q (record r { states = ss })
  Ends-after ss f g v = record {
    tarball = v.tarball;
    cache = v.cache;
    extracting = v.extracting;
    incomplete = v.incomplete;
    only_if = λ e. f (v.only_if e);
    whenever = λ q. v.whenever (g q);
  }

  clean_up-Ends :
      (old : List Text) {P : Type 0} (m : ModelFiles)
      → is_model_complete m.cache ≡ false
      → (P → ⊥)
      → Ends old P (clean_up w m)
  unfolding clean_up
  clean_up-Ends old m h never = record {
    tarball = λ u. ground arith;
    cache = λ e. absurd (ground arith);
    extracting = λ e. absurd (ground arith);
    incomplete = λ e. removed-incomplete w.new_cache m.cache h;
    only_if = λ e. absurd (ground arith);
    whenever = λ p. absurd (never p);
  }

  -- The rename finds its place.
  abbrev Extracts : Extraction → ModelFiles → Type 0
  Extracts x m = (x ≡ extracted) × (replaceable (removed w.old_cache m.cache) ≡ true)

  extract-Ends :
      (x : Extraction) (old : List Text) (m : ModelFiles)
      → is_model_complete m.cache ≡ false
      → Ends old (Extracts x m) (extract archive w x old m)
  unfolding extract
  extract-Ends (extraction_broke part) old m h =
      let r = clean_up-Ends old {P = ⊥} (with_extracting m (directory (old ++ part))) h (λ p. p) in
      Ends-after _ (λ p. absurd p) (λ p. ground arith) r
  extract-Ends extracted old m h = elim (Bool-cases (replaceable (removed w.old_cache m.cache))) [
    | inl e ↦
        rw (e, extract)
          (record {
            tarball = λ u. ground arith;
            cache = λ k. refl;
            extracting = λ k. refl;
            incomplete = λ k. absurd (ground arith);
            only_if = λ k. (refl, refl);
            whenever = λ p. refl;
          })
    | inr e ↦
        let m1 = with_extracting m (directory (old ++ archive)) in
        let r =
          clean_up-Ends old {P = ⊥} (with_cache m1 (removed w.old_cache m.cache))
            (removed-incomplete w.old_cache m.cache h) (λ p. p) in
        rw (e, extract) (Ends-after _ (λ p. absurd p) (λ p. ground arith) r)
  ]

  -- And no plain file is in the way of the extraction.
  abbrev pub Unpacks : Extraction → ModelFiles → Type 0
  Unpacks x m =
      (x ≡ extracted)
      × (m.extracting ≢ no_directory)
      × (replaceable (removed w.old_cache m.cache) ≡ true)

  unpack-Ends :
      (x : Extraction) (m : ModelFiles)
      → is_model_complete m.cache ≡ false
      → Ends (left_entries w.old_extraction m.extracting) (Unpacks x m) (unpack archive w x m)
  unfolding unpack
  unpack-Ends x m h = from m.extracting
    where
      m1 : ModelFiles
      m1 = record m { tarball = true }

      renewed :
          (n : Node)
          → n ≢ no_directory
          → let old = left_entries w.old_extraction n in
            Ends old
              (Unpacks x (with_extracting m n))
              (extract archive w x old (with_extracting m1 (directory old)))
      renewed n other =
          let old = left_entries w.old_extraction n in
          let r = extract-Ends x old (with_extracting m1 (directory old)) h in
          Ends-after _ (λ p. (p.0, other, p.1)) (λ p. (p.0, p.2)) r

      from :
          (n : Node)
          → Ends
              (left_entries w.old_extraction n)
              (Unpacks x (with_extracting m n))
              (unpack archive w x (with_extracting m n))
      from missing = let r = renewed missing (λ e. ground arith) in Ends-after _ (λ p. p) (λ p. p) r
      from (directory fs) =
          let r = renewed (directory fs) (λ e. ground arith) in Ends-after _ (λ p. p) (λ p. p) r
      from no_directory =
          let r =
            clean_up-Ends (left_entries w.old_extraction no_directory)
              {P = Unpacks x (with_extracting m no_directory)} (with_extracting m1 no_directory) h
              (λ p. (p.1) refl) in
          Ends-after _ (λ p. p) (λ p. p) r

  -- The bridge has no tarball.
  unfetched :
      (a : BridgeAnswer) (old : List Text) {P : Type 0} (m : ModelFiles)
      → is_model_complete m.cache ≡ false
      → a ≢ fetched_tarball
      → let r = clean_up w m in
        (r.returned ≡ true
          → (r.files.cache ≡ directory (old ++ archive))
            × (r.files.extracting ≡ missing)
            × (a ≡ fetched_tarball)
            × P)
        × (a ≡ fetched_tarball → P → r.returned ≡ true)
        × (r.returned ≡ false → is_model_complete r.files.cache ≡ false)
        × (w.unlinks ≡ true → r.files.tarball ≡ false)
  unfetched a old m h other =
      let r = clean_up-Ends old {P = ⊥} m h (λ p. p) in
      (λ e. absurd (r.only_if e), λ e p. absurd (other e), r.incomplete, r.tarball)

  -- Where the cache held no complete model, and whatever files cannot be removed: `download_weights`
  -- returns just if the bridge had the tarball, the extraction went through, no plain file stood beside
  -- the cache, and what could not be removed of the cache does not block the rename. If it returns, the
  -- cache holds the archive, with what could not be removed of an old extraction, and nothing is left
  -- beside it. If it raises, the cache holds no complete model. On every path the tarball is gone if it
  -- can be removed.
  pub download_result :
      (a : BridgeAnswer) (x : Extraction) (m : ModelFiles)
      → is_model_complete m.cache ≡ false
      → let r = download_weights archive w a x m in
        (r.returned ≡ true
          → (r.files.cache ≡ directory (left_entries w.old_extraction m.extracting ++ archive))
            × (r.files.extracting ≡ missing)
            × (a ≡ fetched_tarball)
            × Unpacks x m)
        × (a ≡ fetched_tarball → Unpacks x m → r.returned ≡ true)
        × (r.returned ≡ false → is_model_complete r.files.cache ≡ false)
        × (w.unlinks ≡ true → r.files.tarball ≡ false)
  unfolding download_weights
  download_result fetched_tarball x m h =
      let r = unpack-Ends x m h in
      (
        λ e. (r.cache e, r.extracting e, refl, r.only_if e),
        λ e p. r.whenever p,
        r.incomplete,
        r.tarball,
      )
  download_result unreachable x m h = unfetched unreachable _ m h (λ e. ground arith)
  download_result integrity_failure x m h = unfetched integrity_failure _ m h (λ e. ground arith)
  download_result bad_status x m h = unfetched bad_status _ m h (λ e. ground arith)
  download_result no_success x m h = unfetched no_success _ m h (λ e. ground arith)
