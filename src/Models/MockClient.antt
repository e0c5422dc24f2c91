-- ===== src/Models/MockClient.antt =====
-- src/py-inference/src/model/foc_mock.py: MockFOCClient and `create_foc_client`.
use openmodel.Base.{
  ◌≡◌, refl, ap, ◌∙◌, ℕ, zero, suc, ◌-◌, false, List, [], ◌∷◌, ◌++◌, Option, none, some, length,
  if◌then◌else◌, arith,
}
use openmodel.Base.Text.{Text, codes, same, starts_with, contains}
use openmodel.Models.Foc.{
  ModelManifest, mock_path, mock_available, RealFocClient, real_foc_client, RegistryEntry,
}

-- `s.replace(old, "")`, with the number of characters of an occurrence that are still to be left out.
unfoldable pub without : Text → ℕ → Text → Text
without old n [] = []
without old (suc n) (c ∷ s) = without old n s
without old zero (c ∷ s) =
    let cut = without old (length old - 1) s in
    let rest = without old zero s in if starts_with (c ∷ s) old then cut else c ∷ rest

unfoldable pub mock_resolve_model : List (Text × Text) → Text → Option ModelManifest
unfolding mock_path
mock_resolve_model registry id = elim (mock_path registry id) [
  | none ↦ none
  | some path ↦ some (record {
    model_id = id;
    checksum_sha256 = codes "mock-checksum";
    source_uri = codes "file://" ++ path;
  })
]

-- The path that `download_weights` gives; nothing is copied.
unfoldable pub mock_download_weights : ModelManifest → Text
unfolding without
mock_download_weights m = without (codes "file://") 0 m.source_uri

-- What `ensure_model` gives with this client and no complete model in the cache; none: it raises.
unfoldable pub mock_from_foc : List (Text × Text) → Text → Option Text
unfolding mock_available mock_resolve_model mock_download_weights
mock_from_foc registry id =
    if mock_available registry id
    then elim (mock_resolve_model registry id) [
      | none ↦ none
      | some m ↦ some (mock_download_weights m)
    ]
    else some id

-- The two sections of the configuration that the factory reads.
pub record FocFactoryConfig : Type 0 where
  pub backend : Text
  pub model_registry : List (Text × Text)
  pub bridge_url : Text
  pub piece_cid_registry : List (Text × RegistryEntry)

pub data FocClient : Type 0 where
  mock_client : List (Text × Text) → FocClient
  real_client : RealFocClient → FocClient

-- `none`: ValueError.
unfoldable pub create_foc_client : FocFactoryConfig → Option FocClient
create_foc_client c =
    if same c.backend (codes "mock")
    then some (mock_client c.model_registry)
    else if same c.backend (codes "real")
    then some (real_client (real_foc_client c.bridge_url c.piece_cid_registry))
    else none

without_absent : (old s : Text) → contains old s ≡ false → without old 0 s ≡ s
unfolding without contains
without_absent old [] h = refl
without_absent old (c ∷ s) h = ground (arith, without_absent old s (ground arith))

prefix_cut :
    (path : Text)
    → without (codes "file://") 0 (codes "file://" ++ path) ≡ without (codes "file://") 0 path
unfolding without starts_with
prefix_cut path = refl

-- The model of a registered path with no "file://" in it is that path, through the manifest and back.
mock_from_foc_lem :
    (registry : List (Text × Text)) (id path : Text)
    → mock_path registry id ≡ some path
    → contains (codes "file://") path ≡ false
    → mock_from_foc registry id ≡ some path
unfolding mock_from_foc mock_available mock_resolve_model mock_download_weights
mock_from_foc_lem registry id path at clean =
    rw (mock_from_foc, mock_available, mock_resolve_model, at)
      (ap some (prefix_cut path ∙ without_absent (codes "file://") path clean))
