-- ===== src/Models/Local.antt =====
-- src/py-inference/src/model/local_loader.py: `find_local_model`. Which paths exist, what a path resolves to
-- and the home directory are arguments; a directory is written without a slash at its end.
use openmodel.Base.{
  ◌≡◌, refl, any, arith, Bool-cases, inl, inr, Bool, true, false, List, [], ◌∷◌, ◌++◌, Option, none,
  some, if◌then◌else◌,
}
use openmodel.Base.Text.{Text, codes, replace}

-- `Path(d) / model_path.replace("/", "--")`.
abbrev pub candidate : Text → Text → Text
candidate model_path d = d ++ (b'/' ∷ replace b'/' (codes "--") model_path)

abbrev pub common_locations : Text → List Text
common_locations home = codes "/models" ∷ (home ++ codes "/.cache/huggingface/hub") ∷ []

-- The loop over the directories.
unfoldable pub first_candidate : (Text → Bool) → Text → List Text → Option Text
first_candidate exists model_path [] = none
first_candidate exists model_path (d ∷ ds) =
    let rest = first_candidate exists model_path ds in
    if exists (candidate model_path d) then some (candidate model_path d) else rest

-- What is searched, `search_dirs or []` extended.
abbrev pub searched : Text → Option (List Text) → List Text
searched home none = common_locations home
searched home (some ds) = ds ++ common_locations home

-- The list that the caller passed, after the call: `extend` works on it, unless it is empty.
abbrev pub extended : Text → List Text → List Text
extended home [] = []
extended home (d ∷ ds) = (d ∷ ds) ++ common_locations home

-- The answer, and the caller's list after the call.
unfoldable pub find_local_model :
    (Text → Bool)
    → (Text → Text)
    → Text
    → Text
    → Option (List Text)
    → Option Text × Option (List Text)
unfolding first_candidate
find_local_model exists resolved home model_path dirs =
    if exists model_path then (some (resolved model_path), dirs) else (
      first_candidate exists model_path (searched home dirs),
      elim dirs [ none ↦ none | some ds ↦ some (extended home ds) ],
    )

-- A candidate that is given exists, and none is given only if no candidate exists.
first_candidate_lem :
    (exists : Text → Bool) (model_path : Text) (ds : List Text)
    → ((p : Text) → first_candidate exists model_path ds ≡ some p → exists p ≡ true)
      × (first_candidate exists model_path ds ≡ none
          → any (λ d. exists (candidate model_path d)) ds ≡ false)
unfolding first_candidate
first_candidate_lem exists model_path [] = (λ p h. absurd (ground arith), λ h. refl)
first_candidate_lem exists model_path (d ∷ ds) =
    let (found, missed) = first_candidate_lem exists model_path ds in
    elim (Bool-cases (exists (candidate model_path d))) [
      | inl e ↦ (λ p h. ground arith, λ h. absurd (ground arith))
      | inr e ↦ (λ p h. found p (ground arith), λ h. ground (arith, missed (ground arith)))
    ]

-- Every search that does not find the path itself makes a non-empty list of the caller longer by two.
search_dirs_grow :
    (exists : Text → Bool) (resolved : Text → Text) (home model_path d : Text) (ds : List Text)
    → exists model_path ≡ false
    → (find_local_model exists resolved home model_path (some (d ∷ ds))).1
      ≡ some ((d ∷ ds) ++ common_locations home)
unfolding find_local_model
search_dirs_grow exists resolved home model_path d ds h = ground arith
