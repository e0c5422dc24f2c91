-- ===== src/Models/Download.antt =====
-- src/py-inference/src/model/foc_real.py: `download_weights` and `_cleanup_partial`, as the states of
-- the model's files that they pass through. A process can be killed in any of these.
use openmodel.Base.{Bool, true, false, not, ◌&&◌, List, [], ◌∷◌, ◌++◌, map, if◌then◌else◌}
use openmodel.Base.Text.{Text}
use openmodel.Models.Cache.{
  Node, missing, no_directory, directory, ModelFiles, Stuck, rmtree_states, left_entries, removed,
}

-- The bridge's answer: the call raises, HTTP 422 (the digest differs), another error status, no
-- success, or the tarball is there.
pub data BridgeAnswer : Type 0 where
  unreachable integrity_failure bad_status no_success fetched_tarball : BridgeAnswer

-- How the extraction ends: all is there, or it raises when only these entries are.
pub data Extraction : Type 0 where
  extracted : Extraction
  extraction_broke : List Text → Extraction

-- The states passed through, the last one, and whether the directory is returned.
pub record Run : Type 0 where
  pub states : List ModelFiles
  pub files : ModelFiles
  pub returned : Bool

abbrev pub with_cache : ModelFiles → Node → ModelFiles
with_cache m n = record m { cache = n }

abbrev pub with_extracting : ModelFiles → Node → ModelFiles
with_extracting m n = record m { extracting = n }

-- What cannot be removed: by the `rmtree` of an old extraction, by that of the cache before the rename,
-- by the two of `_cleanup_partial`; and whether the tarball can be.
pub record Removals : Type 0 where
  pub old_extraction : Stuck
  pub old_cache : Stuck
  pub new_extraction : Stuck
  pub new_cache : Stuck
  pub unlinks : Bool

-- The `finally`: the tarball goes; an error is swallowed.
abbrev unlinked : Removals → ModelFiles → ModelFiles
unlinked w m = record m { tarball = not w.unlinks && m.tarball }

-- `_cleanup_partial`, then the `finally`.
unfoldable pub clean_up : Removals → ModelFiles → Run
clean_up w m =
    let m1 = with_extracting m (removed w.new_extraction m.extracting) in
    let m2 = with_cache m1 (removed w.new_cache m.cache) in
    record {
      states =
          map (with_extracting m) (rmtree_states w.new_extraction m.extracting)
          ++ (map (with_cache m1) (rmtree_states w.new_cache m.cache) ++ unlinked w m2 ∷ []);
      files = unlinked w m2;
      returned = false;
    }

-- The directory after each entry of a list is written to it.
unfoldable pub filled : List Text → List Text → List Node
filled done [] = []
filled done (f ∷ fs) = directory (done ++ f ∷ []) ∷ filled (done ++ f ∷ []) fs

abbrev after_states : List ModelFiles → Run → Run
after_states before r = record r { states = before ++ r.states }

-- A directory can be renamed to where nothing or an empty directory stands.
abbrev pub replaceable : Node → Bool
replaceable missing = true
replaceable (directory []) = true
replaceable _ = false

-- Extraction into the directory beside the cache, where the entries `old` are left, and the swap.
unfoldable pub extract : List Text → Removals → Extraction → List Text → ModelFiles → Run
unfolding clean_up filled
extract archive w (extraction_broke part) old m =
    let m' = with_extracting m (directory (old ++ part)) in
    after_states (map (with_extracting m) (filled old part)) (clean_up w m')
extract archive w extracted old m =
    let m1 = with_extracting m (directory (old ++ archive)) in
    let m2 = with_cache m1 (removed w.old_cache m.cache) in
    let before =
      map (with_extracting m) (filled old archive)
      ++ map (with_cache m1) (rmtree_states w.old_cache m.cache) in
    let m3 = record m { cache = directory (old ++ archive); extracting = missing } in
    if replaceable m2.cache
    then record {
      states = before ++ m3 ∷ unlinked w m3 ∷ [];
      files = unlinked w m3;
      returned = true;
    }
    else after_states before (clean_up w m2)

-- With the tarball there: the old extraction goes, but for what cannot be removed, and a directory is
-- made unless one is left, which fails if a plain file stands there.
unfoldable pub unpack : List Text → Removals → Extraction → ModelFiles → Run
unfolding extract clean_up
unpack archive w x m =
    let m1 = record m { tarball = true } in
    let old = left_entries w.old_extraction m.extracting in
    let m2 = with_extracting m1 (directory old) in
    elim (m.extracting) [
      | no_directory ↦ after_states (m1 ∷ []) (clean_up w m1)
      | _ ↦
          after_states
            (m1 ∷ map (with_extracting m1) (rmtree_states w.old_extraction m.extracting) ++ m2 ∷ [])
            (extract archive w x old m2)
    ]

-- `download_weights`, for a tarball with the entries `archive`.
unfoldable pub download_weights :
    List Text → Removals → BridgeAnswer → Extraction → ModelFiles → Run
unfolding unpack clean_up
download_weights archive w fetched_tarball x m = unpack archive w x m
download_weights archive w _ x m = clean_up w m
