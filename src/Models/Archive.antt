-- ===== src/Models/Archive.antt =====
-- src/py-inference/src/model/foc_real.py: the checks of `_safe_extractall`, which a Python without
-- extraction filters makes before it extracts. A resolved path is the list of its components.
use openmodel.Base.{Bool, true, ◌&&◌, ◌||◌, List, [], ◌∷◌, ◌++◌, all, if◌then◌else◌}
use openmodel.Base.Text.{Text, codes, same, is_empty, split, starts_with}

-- A link's text is its `linkname`.
pub data MemberKind : Type 0 where
  plain : MemberKind
  linked : Text → MemberKind

pub record Member : Type 0 where
  pub name : Text
  pub kind : MemberKind

-- `path.parent`; that of the root is the root.
unfoldable pub parent : List Text → List Text
parent [] = []
parent (c ∷ []) = []
parent (c ∷ d ∷ cs) = c ∷ parent (d ∷ cs)

-- One component further.
unfoldable pub enter : List Text → Text → List Text
unfolding parent
enter base part =
    if is_empty part || same part (codes ".")
    then base
    else if same part (codes "..")
    then parent base
    else base ++ part ∷ []

unfoldable pub walk : List Text → List Text → List Text
unfolding enter
walk base [] = base
walk base (p ∷ ps) = walk (enter base p) ps

-- `(base / name).resolve()` where no link stands on the way.
unfoldable pub resolve : List Text → Text → List Text
unfolding walk
resolve base name = walk (if starts_with name (codes "/") then [] else base) (split b'/' name)

-- `str(path)`; the root, which is no directory of models, is the empty text here.
unfoldable pub path_text : List Text → Text
path_text [] = []
path_text (c ∷ cs) = b'/' ∷ c ++ path_text cs

-- `str(path).startswith(prefix)`.
unfoldable pub is_below : List Text → List Text → Bool
unfolding path_text
is_below dest path = starts_with (path_text path) (path_text dest ++ codes "/")

unfoldable pub link_check : List Text → List Text → MemberKind → Bool
unfolding is_below resolve parent
link_check dest target plain = true
link_check dest target (linked link) = is_below dest (resolve (parent target) link)

unfoldable pub check_member : List Text → Member → Bool
unfolding link_check
check_member dest m =
    let target = resolve dest m.name in
    (same (path_text target) (path_text dest) || is_below dest target)
    && link_check dest target m.kind

-- False: the RuntimeError about an unsafe member.
unfoldable pub safe_members : List Text → List Member → Bool
unfolding check_member
safe_members dest ms = all (check_member dest) ms
