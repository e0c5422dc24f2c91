-- ===== src/Models/Cache.antt =====
-- src/py-inference/src/model/manager.py: `is_model_complete`, over the part of the file system that
-- belongs to one model.
use openmodel.Base.{Bool, true, false, ◌&&◌, ◌||◌, List, [], ◌∷◌, ◌++◌, any, filter, if◌then◌else◌}
use openmodel.Base.Text.{Text, codes, same, ends_with}

-- What stands at a path: nothing, no directory, or a directory with its entries' names.
pub data Node : Type 0 where
  missing no_directory : Node
  directory : List Text → Node

unfoldable pub has_file : Text → List Text → Bool
has_file name = any (λ f. same f name)

abbrev pub is_weight : Text → Bool
is_weight f =
    ends_with f (codes ".safetensors")
    || (ends_with f (codes ".bin")
        || (ends_with f (codes ".pt")
            || (ends_with f (codes ".gguf") || ends_with f (codes ".index.json"))))

unfoldable pub is_model_complete : Node → Bool
unfolding has_file
is_model_complete missing = false
is_model_complete no_directory = false
is_model_complete (directory names) = has_file (codes "config.json") names && any is_weight names

-- `path.exists()`.
abbrev pub exists : Node → Bool
exists missing = false
exists _ = true

-- The cache directory of a model, the directory "<name>.extracting" beside it, and the tarball.
pub record ModelFiles : Type 0 where
  pub cache : Node
  pub extracting : Node
  pub tarball : Bool

-- What `shutil.rmtree` cannot remove: files of a directory, or the directory itself. Its errors are
-- ignored (`ignore_errors=True`).
pub record Stuck : Type 0 where
  pub file : Text → Bool
  pub itself : Bool

-- A directory of these entries, of which none is left to try; an empty one goes.
abbrev pub after_rmdir : Stuck → List Text → Node
after_rmdir k [] = if k.itself then directory [] else missing
after_rmdir k (f ∷ fs) = directory (f ∷ fs)

-- `shutil.rmtree`, file by file: what the node is at each moment, with the entries that stay so far. A
-- plain file stays.
unfoldable pub rmtree_from : Stuck → List Text → List Text → List Node
rmtree_from k kept [] = after_rmdir k kept ∷ []
rmtree_from k kept (f ∷ fs) = elim (k.file f) [
  | true ↦ rmtree_from k (kept ++ f ∷ []) fs
  | false ↦ directory (kept ++ fs) ∷ rmtree_from k kept fs
]

unfoldable pub rmtree_states : Stuck → Node → List Node
unfolding rmtree_from
rmtree_states k missing = []
rmtree_states k no_directory = []
rmtree_states k (directory fs) = rmtree_from k [] fs

-- The entries that `rmtree` leaves.
unfoldable pub left_entries : Stuck → Node → List Text
left_entries k (directory fs) = filter k.file fs
left_entries k _ = []

-- What `rmtree` leaves.
unfoldable pub removed : Stuck → Node → Node
unfolding left_entries
removed k missing = missing
removed k no_directory = no_directory
removed k (directory fs) = after_rmdir k (filter k.file fs)
