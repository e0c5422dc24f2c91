-- ===== src/Models/Foc.antt =====
-- src/py-inference/src/model/foc_real.py and foc_mock.py: the registries of the FOC clients, and what
-- is asked of the bridge. A dict is an association list without repeated keys.
use openmodel.Base.{
  ℕ, Bool, false, ◌&&◌, List, [], ◌∷◌, ◌++◌, Option, none, some, if◌then◌else◌, ◌==◌, is_some,
}
use openmodel.Base.Text.{Text, codes, same, replace, join, split, lower, rstrip}

-- `entry` is a CID, a list of CIDs, or a dict with "cids" (either) and "sha256".
pub data CidList : Type 0 where
  one_cid : Text → CidList
  many_cids : List Text → CidList

pub data RegistryEntry : Type 0 where
  bare : CidList → RegistryEntry
  detailed : Option CidList → Option Text → RegistryEntry

abbrev pub cid_list : CidList → List Text
cid_list (one_cid c) = c ∷ []
cid_list (many_cids cs) = cs

unfoldable pub entry_cids : RegistryEntry → List Text
entry_cids (bare cs) = cid_list cs
entry_cids (detailed none sha) = []
entry_cids (detailed (some cs) sha) = cid_list cs

-- The pinned digest, in lower case; an empty one counts as none.
unfoldable pub entry_sha256 : RegistryEntry → Option Text
entry_sha256 (detailed cs (some (c ∷ sha))) = some (lower (c ∷ sha))
entry_sha256 _ = none

pub record RealFocClient : Type 0 where
  pub bridge_url : Text
  pub registry : List (Text × RegistryEntry)

-- `RealFOCClient.__init__`; the lists of CIDs and the digests are read off the entries.
unfoldable pub real_foc_client : Text → List (Text × RegistryEntry) → RealFocClient
real_foc_client url entries = record { bridge_url = rstrip b'/' url; registry = entries }

unfoldable pub find_entry : Text → List (Text × RegistryEntry) → Option RegistryEntry
find_entry id [] = none
find_entry id ((key, entry) ∷ rest) = if same key id then some entry else find_entry id rest

-- `_get_cids`, with `if not cids` folded in: none also for an empty list.
unfoldable pub get_cids : RealFocClient → Text → Option (Text × List Text)
unfolding find_entry entry_cids
get_cids c id = elim (find_entry id c.registry) [
  | none ↦ none
  | some entry ↦ elim (entry_cids entry) [ [] ↦ none | cid ∷ cids ↦ some (cid, cids) ]
]

unfoldable pub get_sha256 : RealFocClient → Text → Option Text
unfolding find_entry entry_sha256
get_sha256 c id = elim (find_entry id c.registry) [ none ↦ none | some entry ↦ entry_sha256 entry ]

-- The bridge's answer to `/resolve`.
pub data ResolveAnswer : Type 0 where
  resolve_status : ℕ → Bool → ResolveAnswer
  resolve_error : ResolveAnswer

-- Every failure means that the model is not available.
abbrev answered : ResolveAnswer → Bool
answered (resolve_status code available) = code == 200 && available
answered resolve_error = false

-- `check_availability`.
unfoldable pub check_availability : RealFocClient → Text → ResolveAnswer → Bool
unfolding get_cids
check_availability c id answer = elim (get_cids c id) [ none ↦ false | some cids ↦ answered answer ]

-- `size_bytes` and `quantization` are constants here.
pub record ModelManifest : Type 0 where
  pub model_id : Text
  pub checksum_sha256 : Text
  pub source_uri : Text

unfoldable pub text_or_empty : Option Text → Text
text_or_empty none = []
text_or_empty (some t) = t

-- `resolve_model`; `none`: ValueError.
unfoldable pub resolve_model : RealFocClient → Text → Option ModelManifest
unfolding get_cids get_sha256 text_or_empty
resolve_model c id = elim (get_cids c id) [
  | none ↦ none
  | some (cid, cids) ↦ some (record {
    model_id = id;
    checksum_sha256 = text_or_empty (get_sha256 c id);
    source_uri = join (codes ",") (cid ∷ cids);
  })
]

-- The body of `POST /download-model`; the digest only if one is pinned.
pub record DownloadRequest : Type 0 where
  pub piece_cids : List Text
  pub dest_path : Text
  pub sha256 : Option Text

abbrev pub pinned_digest : Text → Option Text
pinned_digest [] = none
pinned_digest (c ∷ sha) = some (c ∷ sha)

-- The first part of `download_weights`; `tmp_dir` ends in a slash.
unfoldable pub download_request : Text → ModelManifest → DownloadRequest
download_request tmp_dir m = record {
  piece_cids = split b',' m.source_uri;
  dest_path =
      tmp_dir ++ (codes "foc-model-" ++ (replace b'/' (codes "-") m.model_id ++ codes ".tar.gz"));
  sha256 = pinned_digest m.checksum_sha256;
}

-- `MockFOCClient`: the id's path in the registry.
unfoldable pub mock_path : List (Text × Text) → Text → Option Text
mock_path [] id = none
mock_path ((key, path) ∷ rest) id = if same key id then some path else mock_path rest id

-- Its `check_availability`.
unfoldable pub mock_available : List (Text × Text) → Text → Bool
unfolding mock_path
mock_available registry id = is_some (mock_path registry id)
