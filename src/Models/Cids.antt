-- ===== src/Models/Cids.antt =====
-- src/py-inference/src/model/foc_real.py: what `resolve_model` packs into a manifest is what
-- `download_weights` asks the bridge for.
use openmodel.Base.{
  ◌≡◌, refl, ap, ◌∙◌, ℕ, List, [], ◌∷◌, ◌++◌, none, some, arith, Option-cases, inl, inr,
}
use openmodel.Base.Text.{Text, codes, Lacks, split, join, split_of_Lacks}
use openmodel.Models.Foc.{
  RealFocClient, RegistryEntry, bare, detailed, get_cids, get_sha256, resolve_model,
  download_request, ModelManifest, entry_sha256, find_entry, text_or_empty, pinned_digest,
}

abbrev pub AllLack : ℕ → List Text → Type 0
AllLack c [] = Unit
AllLack c (p ∷ ps) = Lacks c p × AllLack c ps

split-join_head :
    (c : ℕ) (p s : Text) {q : Text} {qs : List Text}
    → Lacks c p
    → split c s ≡ q ∷ qs
    → split c (p ++ c ∷ s) ≡ p ∷ q ∷ qs
unfolding split
split-join_head c [] s h e = ground arith
split-join_head c (d ∷ p) s (n, h) e = ground (arith, split-join_head c p s h e)

join-cons :
    (c : ℕ) (p q : Text) (qs : List Text)
    → join (c ∷ []) (p ∷ q ∷ qs) ≡ p ++ c ∷ join (c ∷ []) (q ∷ qs)
unfolding join
join-cons c p q qs = refl

-- Splitting a join gives the parts back.
pub split-join :
    (c : ℕ) (p : Text) (ps : List Text)
    → Lacks c p
    → AllLack c ps
    → split c (join (c ∷ []) (p ∷ ps)) ≡ p ∷ ps
unfolding join
split-join c p [] h k = split_of_Lacks c p h
split-join c p (q ∷ qs) h (m, k) =
    ap (split c) (join-cons c p q qs)
    ∙ split-join_head c p (join (c ∷ []) (q ∷ qs)) h (split-join c q qs m k)

pinned_entry : (e : RegistryEntry) → pinned_digest (text_or_empty (entry_sha256 e)) ≡ entry_sha256 e
unfolding text_or_empty entry_sha256
pinned_entry (bare cs) = refl
pinned_entry (detailed cs none) = refl
pinned_entry (detailed cs (some [])) = refl
pinned_entry (detailed cs (some (c ∷ sha))) = refl

pinned_sha256 :
    (c : RealFocClient) (id : Text)
    → pinned_digest (text_or_empty (get_sha256 c id)) ≡ get_sha256 c id
unfolding get_sha256
pinned_sha256 c id = elim (Option-cases (find_entry id c.registry)) [
  | inl e ↦ rw (e, get_sha256) (unfold text_or_empty in refl)
  | inr (entry, e) ↦ rw (e, get_sha256) (pinned_entry entry)
]

-- For a registered model whose CIDs hold no comma: the manifest that `resolve_model` makes is there,
-- and `download_weights` asks the bridge for exactly the registered CIDs, in order, with the digest
-- exactly if one is pinned. A model without CIDs has no manifest.
manifest_keeps_cids :
    (c : RealFocClient) (id tmp_dir : Text)
    → ((cid : Text) (cids : List Text)
        → get_cids c id ≡ some (cid, cids)
        → Lacks b',' cid
        → AllLack b',' cids
        → (m : ModelManifest) × (resolve_model c id ≡ some m)
          × ((download_request tmp_dir m).piece_cids ≡ cid ∷ cids)
          × ((download_request tmp_dir m).sha256 ≡ get_sha256 c id))
      × (get_cids c id ≡ none → resolve_model c id ≡ none)
unfolding resolve_model download_request
manifest_keeps_cids c id tmp_dir = (
  λ cid cids e h k. (
    record {
      model_id = id;
      checksum_sha256 = text_or_empty (get_sha256 c id);
      source_uri = join (codes ",") (cid ∷ cids);
    },
    rw (e, resolve_model) refl,
    split-join b',' cid cids h k,
    pinned_sha256 c id,
  ),
  λ e. rw (e, resolve_model) refl,
)
