-- ===== src/Api/Stream.antt =====
-- src/py-inference/src/inference/api_server.py: `sse_generator` of a streaming chat. A frame is one
-- `data:` event; the fields that are the same in all frames of a stream are left out.
use openmodel.Base.{ℕ, Bool, List, [], ◌∷◌, ◌++◌, Option, none, some, if◌then◌else◌}
use openmodel.Base.Text.{Text, is_empty, concat}
use openmodel.Engine.Outputs.{StreamChunk}
use openmodel.Receipt.Signer.{Ed25519, ReceiptSigner, Receipt, build_receipt}

pub record TokenUsage : Type 0 where
  pub prompt_tokens : ℕ
  pub completion_tokens : ℕ
  pub cached_tokens : ℕ

pub data Frame : Type 0 where
  content : Text → Frame
  final : Text → TokenUsage → Frame
  receipt : Receipt → Frame
  failure : Text → Frame
  done : Frame

-- How the engine's stream ends: by itself, with a RuntimeError or ValueError, or with any other
-- exception, which breaks the response off.
pub data StreamEnd : Type 0 where
  completed : StreamEnd
  refused : Text → StreamEnd
  crashed : StreamEnd

module _ (E : Ed25519) (sha256_hex : Text → Text) where
  -- What the generator closes over. `signer` none: `get_signer` raises ValueError, with the text
  -- `signer_error`.
  pub record StreamContext : Type 0 where
    pub want_receipt : Bool
    pub request_id : Text
    pub model : Text
    pub request_sha256 : Text
    pub signer : Option (ReceiptSigner E)
    pub signer_error : Text
    pub ts : ℕ

  -- The receipt of a text and its usage, as both kinds of response attest it.
  unfoldable pub attest : StreamContext → ReceiptSigner E → Text → TokenUsage → Receipt
  attest x s text u =
      build_receipt E s x.ts x.request_id x.model x.request_sha256 (sha256_hex text) u.prompt_tokens
        u.completion_tokens u.cached_tokens

  abbrev pub usage_of : StreamChunk → TokenUsage
  usage_of c = record {
    prompt_tokens = c.prompt_tokens;
    completion_tokens = c.completion_tokens;
    cached_tokens = c.cached_tokens;
  }

  unfoldable pub frame_of : StreamChunk → Frame
  frame_of c = elim c.finish_reason [ some f ↦ final f (usage_of c) | none ↦ content c.text_delta ]

  -- `gen_parts` after a chunk.
  unfoldable pub parts_after : List Text → StreamChunk → List Text
  parts_after parts c = elim c.finish_reason [
    | some f ↦ parts
    | none ↦ if is_empty c.text_delta then parts else parts ++ c.text_delta ∷ []
  ]

  -- `final_usage` after a chunk.
  unfoldable pub usage_after : Option TokenUsage → StreamChunk → Option TokenUsage
  usage_after u c = elim c.finish_reason [ some f ↦ some (usage_of c) | none ↦ u ]

  abbrev signed_end : StreamContext → Option (ReceiptSigner E) → Text → TokenUsage → List Frame
  unfolding attest
  signed_end x (some s) text u = receipt (attest x s text u) ∷ done ∷ []
  signed_end x none text u = failure x.signer_error ∷ done ∷ []

  abbrev receipt_end : StreamContext → Option TokenUsage → List Text → List Frame
  unfolding signed_end
  receipt_end x none parts = done ∷ []
  receipt_end x (some u) parts =
      if x.want_receipt then signed_end x x.signer (concat parts) u else done ∷ []

  unfoldable pub stream_end : StreamContext → List Text → Option TokenUsage → StreamEnd → List Frame
  unfolding receipt_end
  stream_end x parts u completed = receipt_end x u parts
  stream_end x parts u (refused e) = failure e ∷ done ∷ []
  stream_end x parts u crashed = []

  unfoldable pub sse_from :
      StreamContext → List Text → Option TokenUsage → List StreamChunk → StreamEnd → List Frame
  unfolding frame_of parts_after usage_after stream_end
  sse_from x parts u [] end = stream_end x parts u end
  sse_from x parts u (c ∷ cs) end =
      frame_of c ∷ sse_from x (parts_after parts c) (usage_after u c) cs end

  -- All frames of a streaming response.
  unfoldable pub sse_generator : StreamContext → List StreamChunk → StreamEnd → List Frame
  unfolding sse_from
  sse_generator x cs end = sse_from x [] none cs end
