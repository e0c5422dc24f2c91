-- ===== src/Models/Crash.antt =====
-- src/py-inference/src/model/foc_real.py: a download that fails, or that is killed at any moment, leaves
-- no directory that a later run takes for a complete model.
use openmodel.Base.{
  All, All-append, ◌≡◌, refl, Bool, true, false, ◌||◌, List, [], ◌∷◌, ◌++◌, map, arith, any, filter,
  Bool-cases, inl, inr,
}
use openmodel.Base.Text.{Text, codes, same}
use openmodel.Models.Cache.{
  Node, missing, no_directory, directory, is_weight, has_file, is_model_complete, ModelFiles, Stuck,
  after_rmdir, rmtree_from, rmtree_states, left_entries, removed,
}
use openmodel.Models.Download.{
  BridgeAnswer, fetched_tarball, Extraction, extracted, extraction_broke, Removals, with_cache,
  with_extracting, clean_up, filled, replaceable, extract, unpack, download_weights,
}

-- If the directory looks complete, it holds just these entries.
abbrev pub Whole : List Text → ModelFiles → Type 0
Whole full m = is_model_complete m.cache ≡ true → m.cache ≡ directory full

pub any-append : (p : Text → Bool) (xs ys : List Text) → any p (xs ++ ys) ≡ (any p xs || any p ys)
any-append p [] ys = refl
any-append p (x ∷ xs) ys = ground (arith, any-append p xs ys)

any-filter : (p q : Text → Bool) (xs : List Text) → any p xs ≡ false → any p (filter q xs) ≡ false
any-filter p q [] h = h
any-filter p q (x ∷ xs) h = ground (arith, any-filter p q xs)

complete-directory :
    (xs ys : List Text)
    → ((p : Text → Bool) → any p xs ≡ false → any p ys ≡ false)
    → is_model_complete (directory xs) ≡ false
    → is_model_complete (directory ys) ≡ false
unfolding is_model_complete has_file
complete-directory xs ys less h =
    ground (arith, less (λ f. same f (codes "config.json")), less is_weight)

-- A change of the directory beside the cache.
beside :
    (full : List Text) (m : ModelFiles) (ns : List Node)
    → Whole full m
    → All (Whole full) (map (with_extracting m) ns)
beside full m [] h = tt
beside full m (n ∷ ns) h = (h, beside full m ns h)

abbrev AllIncomplete : List Node → Type 0
AllIncomplete [] = Unit
AllIncomplete (n ∷ ns) = (is_model_complete n ≡ false) × AllIncomplete ns

after_rmdir-incomplete :
    (k : Stuck) (xs : List Text)
    → is_model_complete (directory xs) ≡ false
    → is_model_complete (after_rmdir k xs) ≡ false
unfolding is_model_complete has_file
after_rmdir-incomplete k [] h = ground arith
after_rmdir-incomplete k (x ∷ xs) h = h

without :
    (kept : List Text) (f : Text) (fs : List Text) (p : Text → Bool)
    → any p (kept ++ f ∷ fs) ≡ false
    → any p (kept ++ fs) ≡ false
without kept f fs p h = ground (arith, any-append p kept (f ∷ fs), any-append p kept fs)

moved_on :
    (kept : List Text) (f : Text) (fs : List Text) (p : Text → Bool)
    → any p (kept ++ f ∷ fs) ≡ false
    → any p ((kept ++ f ∷ []) ++ fs) ≡ false
moved_on kept f fs p h = ground (
  arith,
  any-append p kept (f ∷ fs),
  any-append p (kept ++ f ∷ []) fs,
  any-append p kept (f ∷ []),
)

rmtree_from-incomplete :
    (k : Stuck) (kept fs : List Text)
    → is_model_complete (directory (kept ++ fs)) ≡ false
    → AllIncomplete (rmtree_from k kept fs)
unfolding rmtree_from
rmtree_from-incomplete k kept [] h = (
  after_rmdir-incomplete k kept
      (complete-directory (kept ++ []) kept (λ p e. ground (arith, any-append p kept [])) h),
  tt,
)
rmtree_from-incomplete k kept (f ∷ fs) h = elim (Bool-cases (k.file f)) [
  | inl e ↦
      rw (e, rmtree_from)
        (rmtree_from-incomplete k (kept ++ f ∷ []) fs
          (complete-directory (kept ++ f ∷ fs) _ (moved_on kept f fs) h))
  | inr e ↦
      let less = complete-directory (kept ++ f ∷ fs) (kept ++ fs) (without kept f fs) h in
      rw (e, rmtree_from) (less, rmtree_from-incomplete k kept fs less)
]

rmtree_states-incomplete :
    (k : Stuck) (n : Node) → is_model_complete n ≡ false → AllIncomplete (rmtree_states k n)
unfolding rmtree_states
rmtree_states-incomplete k missing h = tt
rmtree_states-incomplete k no_directory h = tt
rmtree_states-incomplete k (directory fs) h = rmtree_from-incomplete k [] fs h

emptied_states :
    (full : List Text) (m : ModelFiles) (ns : List Node)
    → AllIncomplete ns
    → All (Whole full) (map (with_cache m) ns)
emptied_states full m [] h = tt
emptied_states full m (n ∷ ns) (p, h) = (λ c. ground arith, emptied_states full m ns h)

pub removed-incomplete :
    (k : Stuck) (n : Node) → is_model_complete n ≡ false → is_model_complete (removed k n) ≡ false
unfolding removed
removed-incomplete k missing h = h
removed-incomplete k no_directory h = h
removed-incomplete k (directory fs) h =
    after_rmdir-incomplete k (filter k.file fs)
      (complete-directory fs (filter k.file fs) (λ p. any-filter p k.file fs) h)

incomplete-Whole :
    (full : List Text) (m : ModelFiles) → is_model_complete m.cache ≡ false → Whole full m
incomplete-Whole full m h c = ground arith

module _ (archive : List Text) (w : Removals) where
  clean_up-Whole :
      (full : List Text) (m : ModelFiles)
      → is_model_complete m.cache ≡ false
      → All (Whole full) (clean_up w m).states
  unfolding clean_up
  clean_up-Whole full m h =
      All-append (Whole full)
        (map (with_extracting m) (rmtree_states w.new_extraction m.extracting)) _
        (beside full m (rmtree_states w.new_extraction m.extracting) (incomplete-Whole full m h))
        (All-append (Whole full)
          (map (with_cache (with_extracting m (removed w.new_extraction m.extracting)))
            (rmtree_states w.new_cache m.cache))
          _
          (emptied_states full (with_extracting m (removed w.new_extraction m.extracting))
            (rmtree_states w.new_cache m.cache) (rmtree_states-incomplete w.new_cache m.cache h))
          (λ c. absurd (ground (arith, removed-incomplete w.new_cache m.cache h)), tt))

  extract-Whole :
      (x : Extraction) (old : List Text) (m : ModelFiles)
      → is_model_complete m.cache ≡ false
      → All (Whole (old ++ archive)) (extract archive w x old m).states
  unfolding extract
  extract-Whole (extraction_broke part) old m h =
      All-append (Whole (old ++ archive)) (map (with_extracting m) (filled old part)) _
        (beside (old ++ archive) m (filled old part) (incomplete-Whole (old ++ archive) m h))
        (clean_up-Whole (old ++ archive) (with_extracting m (directory (old ++ part))) h)
  extract-Whole extracted old m h =
      let m1 = with_extracting m (directory (old ++ archive)) in
      let before : All (Whole (old ++ archive)) (
          map (with_extracting m) (filled old archive)
          ++ map (with_cache m1) (rmtree_states w.old_cache m.cache)) =
        All-append (Whole (old ++ archive)) (map (with_extracting m) (filled old archive)) _
          (beside (old ++ archive) m (filled old archive) (incomplete-Whole (old ++ archive) m h))
          (emptied_states (old ++ archive) m1 (rmtree_states w.old_cache m.cache)
            (rmtree_states-incomplete w.old_cache m.cache h)) in
      elim (Bool-cases (replaceable (removed w.old_cache m.cache))) [
        | inl e ↦
            rw (e, extract)
              (All-append (Whole (old ++ archive)) _ _ before (λ c. refl, (λ c. refl, tt)))
        | inr e ↦
            rw (e, extract)
              (All-append (Whole (old ++ archive)) _ _ before (
                clean_up-Whole (old ++ archive) (with_cache m1 (removed w.old_cache m.cache))
                  (removed-incomplete w.old_cache m.cache h)))
      ]

  -- The old extraction goes, and the archive is extracted.
  renewed-Whole :
      (x : Extraction) (n : Node) (m : ModelFiles)
      → is_model_complete m.cache ≡ false
      → let old = left_entries w.old_extraction n in
        All (Whole (old ++ archive)) (
          (m ∷ map (with_extracting m) (rmtree_states w.old_extraction n)
            ++ with_extracting m (directory old) ∷ [])
          ++ (extract archive w x old (with_extracting m (directory old))).states)
  renewed-Whole x n m h =
      let old = left_entries w.old_extraction n in
      let held = incomplete-Whole (old ++ archive) m h in
      All-append (Whole (old ++ archive))
        (m ∷ map (with_extracting m) (rmtree_states w.old_extraction n)
          ++ with_extracting m (directory old) ∷ [])
        (extract archive w x old (with_extracting m (directory old))).states
        (
          held,
          All-append (Whole (old ++ archive))
              (map (with_extracting m) (rmtree_states w.old_extraction n)) _
              (beside (old ++ archive) m (rmtree_states w.old_extraction n) held) (held, tt),
        )
        (extract-Whole x old (with_extracting m (directory old)) h)

  unpack-Whole :
      (x : Extraction) (m : ModelFiles)
      → is_model_complete m.cache ≡ false
      → All
          (Whole (left_entries w.old_extraction m.extracting ++ archive))
          (unpack archive w x m).states
  unfolding unpack
  unpack-Whole x m h = from m.extracting
    where
      m1 : ModelFiles
      m1 = record m { tarball = true }

      from :
          (n : Node)
          → All
              (Whole (left_entries w.old_extraction n ++ archive))
              (unpack archive w x (with_extracting m n)).states
      from missing = renewed-Whole x missing (with_extracting m1 missing) h
      from (directory fs) = renewed-Whole x (directory fs) (with_extracting m1 (directory fs)) h
      from no_directory =
          let full = left_entries w.old_extraction no_directory ++ archive in
          All-append (Whole full) (with_extracting m1 no_directory ∷ [])
            (clean_up w (with_extracting m1 no_directory)).states
            (incomplete-Whole full (with_extracting m1 no_directory) h, tt)
            (clean_up-Whole full (with_extracting m1 no_directory) h)

  -- Where the cache held no complete model: at every moment of a download, whatever the bridge answers,
  -- however the extraction ends and whatever files cannot be removed, a cache directory that looks
  -- complete holds the whole archive, and else only what could not be removed of an old extraction. So a
  -- process that is killed leaves nothing that a later run mistakes for the model.
  pub download_crash_safe :
      (a : BridgeAnswer) (x : Extraction) (m : ModelFiles)
      → is_model_complete m.cache ≡ false
      → All
          (λ t.
            is_model_complete t.cache ≡ true
            → t.cache ≡ directory (left_entries w.old_extraction m.extracting ++ archive))
          (download_weights archive w a x m).states
  unfolding download_weights
  download_crash_safe fetched_tarball x m h = unpack-Whole x m h
  download_crash_safe _ x m h =
      clean_up-Whole (left_entries w.old_extraction m.extracting ++ archive) m h
