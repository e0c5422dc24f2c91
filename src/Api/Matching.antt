-- ===== src/Api/Matching.antt =====
-- src/py-inference/src/inference/api_server.py: what `_model_matches` accepts.
use openmodel.Base.{
  ◌≡◌, ◌≢◌, ◌↔◌, ◌⊎◌, inl, inr, refl, sym, ap, ◌∙◌, ℕ, true, false, [], ◌∷◌, ◌++◌, arith, ◌==◌,
  Bool-cases,
}
use mathlib.Core.List.{append_assoc}
use openmodel.Base.Text.{
  Text, codes, same, same_iff, is_empty, replace, rstrip, split, last_part, Lacks, Lacks-append,
  replace-append, replace_of_Lacks, rstrip-append, rstrip_of_Lacks, last-split, split_of_Lacks,
}
use openmodel.Api.Names.{model_matches, final_component, flat_name}

-- A file name: not empty, no separator of either kind.
abbrev pub IsFileName : Text → Type 0
IsFileName s = (s ≢ []) × Lacks b'/' s × Lacks b'\\' s

replace_in_Lacks : (c d : ℕ) (by s : Text) → Lacks c s → Lacks c by → Lacks c (replace d by s)
unfolding replace
replace_in_Lacks c d by [] h k = tt
replace_in_Lacks c d by (x ∷ s) (n, h) k = elim (Bool-cases (x == d)) [
  | inl e ↦ rw e (Lacks-append c by (replace d by s) k (replace_in_Lacks c d by s h k))
  | inr e ↦ rw e (n, replace_in_Lacks c d by s h k)
]

replaced_Lacks : (c : ℕ) (by s : Text) → Lacks c by → Lacks c (replace c by s)
unfolding replace
replaced_Lacks c by [] k = tt
replaced_Lacks c by (x ∷ s) k = elim (Bool-cases (x == c)) [
  | inl e ↦ rw e (Lacks-append c by (replace c by s) k (replaced_Lacks c by s k))
  | inr e ↦ rw e (ground arith, replaced_Lacks c by s k)
]

-- The component behind the last separator, whatever stands before it.
final_component-path :
    (dir name : Text) → IsFileName name → final_component (dir ++ b'/' ∷ name) ≡ name
unfolding final_component
final_component-path dir name (ne, slash, back) =
    ap (λ s. last_part (split b'/' (rstrip b'/' s)))
      (replace-append b'\\' (b'/' ∷ []) dir (b'/' ∷ name)
        ∙ ap (λ s. replace b'\\' (b'/' ∷ []) dir ++ s) (slashed name back))
    ∙ ap (λ s. last_part (split b'/' s)) (kept (replace b'\\' (b'/' ∷ []) dir))
    ∙ last-split b'/' (replace b'\\' (b'/' ∷ []) dir) name slash
  where
    slashed : (s : Text) → Lacks b'\\' s → replace b'\\' (b'/' ∷ []) (b'/' ∷ s) ≡ b'/' ∷ s
    slashed s h = unfold replace in ap (λ t. b'/' ∷ t) (replace_of_Lacks b'\\' (b'/' ∷ []) s h)

    kept : (d : Text) → rstrip b'/' (d ++ b'/' ∷ name) ≡ d ++ b'/' ∷ name
    kept d =
        rw (sym (append_assoc d (b'/' ∷ []) name))
          (rstrip-append b'/' (d ++ b'/' ∷ []) name slash ne)

final_component_of_name : (s : Text) → Lacks b'/' s → Lacks b'\\' s → final_component s ≡ s
unfolding final_component last_part
final_component_of_name s h k =
    ap (λ t. last_part (split b'/' (rstrip b'/' t))) (replace_of_Lacks b'\\' (b'/' ∷ []) s k)
    ∙ ap (λ t. last_part (split b'/' t)) (rstrip_of_Lacks b'/' s h)
    ∙ ap last_part (split_of_Lacks b'/' s h)

-- A model that is loaded from the path `dir/name` matches a request exactly when the request names
-- that path, or when `name` is the requested id with "--" for each "/". So a name that is merely a
-- suffix of another never matches. The request holds no backslash.
pub model_matches_iff :
    (dir name requested : Text)
    → IsFileName name
    → Lacks b'\\' requested
    → (model_matches (dir ++ b'/' ∷ name) requested ≡ true)
      ↔ ((dir ++ b'/' ∷ name ≡ requested) ⊎ (name ≡ replace b'/' (codes "--") requested))
unfolding model_matches
model_matches_iff dir name requested file clean =
    (λ h. sound (Bool-cases (same (dir ++ b'/' ∷ name) requested)) h, complete)
  where
    path : Text
    path = dir ++ b'/' ∷ name

    nonempty : (d : Text) → is_empty (d ++ b'/' ∷ name) ≡ false
    nonempty [] = refl
    nonempty (c ∷ d) = refl

    flat : final_component (flat_name requested) ≡ replace b'/' (codes "--") requested
    flat =
        unfold flat_name in
        final_component_of_name (replace b'/' (codes "--") requested)
          (replaced_Lacks b'/' (codes "--") requested (ground arith))
          (replace_in_Lacks b'\\' b'/' (codes "--") requested clean (ground arith))

    sound :
        (same path requested ≡ true) ⊎ (same path requested ≡ false)
        → model_matches path requested ≡ true
        → (path ≡ requested) ⊎ (name ≡ replace b'/' (codes "--") requested)
    sound (inl e) h = inl ((same_iff path requested).0 e)
    sound (inr e) h = inr (
        sym (final_component-path dir name file)
        ∙ (same_iff (final_component path) (final_component (flat_name requested))).0
            (ground (arith, nonempty dir))
        ∙ flat)

    complete :
        (path ≡ requested) ⊎ (name ≡ replace b'/' (codes "--") requested)
        → model_matches path requested ≡ true
    complete (inl e) = ground (arith, nonempty dir, (same_iff path requested).1 e)
    complete (inr e) = ground (
      arith,
      nonempty dir,
      (same_iff (final_component path) (final_component (flat_name requested))).1
          (final_component-path dir name file ∙ e ∙ sym flat),
    )
