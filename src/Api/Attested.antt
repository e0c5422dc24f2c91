-- ===== src/Api/Attested.antt =====
-- src/py-inference/src/inference/api_server.py: how a streaming response ends, and what its receipt
-- attests.
use openmodel.Base.{
  ◌≡◌, ◌≢◌, refl, sym, ap, ◌∙◌, Bool, true, false, not, List, [], ◌∷◌, ◌++◌, map, Option, none,
  some, arith, all, Option-cases, inl, inr, Bool-cases,
}
use mathlib.Core.List.{append-nil, append_assoc}
use openmodel.Base.Text.{Text, concat}
use openmodel.Engine.Outputs.{
  StreamChunk, RequestOutput, GenerateResult, generate_result, generate_stream, last_chunk,
}
use openmodel.Engine.Streaming.{Grows, is_delta, streamed_text, stream_agrees}
use openmodel.Receipt.Signer.{Ed25519, ReceiptSigner, Receipt}
use openmodel.Api.Stream.{
  TokenUsage, Frame, content, final, receipt, failure, done, StreamEnd, completed, refused, crashed,
  StreamContext, attest, frame_of, parts_after, usage_after, stream_end, sse_from, sse_generator,
}

abbrev pub is_done : Frame → Bool
is_done done = true
is_done _ = false

abbrev pub receipts : List Frame → List Receipt
receipts [] = []
receipts (receipt r ∷ fs) = r ∷ receipts fs
receipts (content t ∷ fs) = receipts fs
receipts (final f u ∷ fs) = receipts fs
receipts (failure e ∷ fs) = receipts fs
receipts (done ∷ fs) = receipts fs

-- The text that a client puts together from the frames.
abbrev pub client_text : List Frame → Text
client_text [] = []
client_text (content t ∷ fs) = t ++ client_text fs
client_text (receipt r ∷ fs) = client_text fs
client_text (final f u ∷ fs) = client_text fs
client_text (failure e ∷ fs) = client_text fs
client_text (done ∷ fs) = client_text fs

-- One done frame, at the very end.
abbrev pub Closes : List Frame → Type 0
Closes fs =
    (body : List Frame) × (fs ≡ body ++ done ∷ []) × (all (λ f. not (is_done f)) body ≡ true)

Closes-cons : (f : Frame) (fs : List Frame) → is_done f ≡ false → Closes fs → Closes (f ∷ fs)
Closes-cons f fs h (body, e, quiet) = (f ∷ body, ap (λ xs. f ∷ xs) e, ground arith)

-- The usage in the result of a request.
abbrev pub result_usage : GenerateResult → TokenUsage
result_usage r = record {
  prompt_tokens = r.prompt_tokens;
  completion_tokens = r.completion_tokens;
  cached_tokens = r.cached_tokens;
}

concat-append : (ps qs : List Text) → concat (ps ++ qs) ≡ concat ps ++ concat qs
concat-append [] qs = refl
concat-append (p ∷ ps) qs =
    ap (λ t. p ++ t) (concat-append ps qs) ∙ sym (append_assoc p (concat ps) (concat qs))

module _ (E : Ed25519) (sha256_hex : Text → Text) where
  frame_of-not_done : (c : StreamChunk) → is_done (frame_of E sha256_hex c) ≡ false
  unfolding frame_of
  frame_of-not_done c = ground arith

  stream_end-Closes :
      (x : StreamContext E sha256_hex) (parts : List Text) (u : Option TokenUsage) (end : StreamEnd)
      → end ≢ crashed
      → Closes (stream_end E sha256_hex x parts u end)
  unfolding stream_end
  stream_end-Closes x parts u crashed ne = absurd (ne refl)
  stream_end-Closes x parts u (refused e) ne = (failure e ∷ [], refl, refl)
  stream_end-Closes x parts none completed ne = ([], refl, refl)
  stream_end-Closes x parts (some u) completed ne = elim (Bool-cases x.want_receipt) [
    | inr e ↦ rw e ([], refl, refl)
    | inl e ↦ elim (Option-cases x.signer) [
      | inl s ↦ rw (e, s) (failure x.signer_error ∷ [], refl, refl)
      | inr (k, s) ↦
          rw (e, s)
            (receipt (attest E sha256_hex x k (concat parts) u) ∷ [], unfold attest in refl, refl)
    ]
  ]

  sse_from-Closes :
      (x : StreamContext E sha256_hex) (parts : List Text) (u : Option TokenUsage)
      (cs : List StreamChunk) (end : StreamEnd)
      → end ≢ crashed
      → Closes (sse_from E sha256_hex x parts u cs end)
  unfolding sse_from
  sse_from-Closes x parts u [] end ne = stream_end-Closes x parts u end ne
  sse_from-Closes x parts u (c ∷ cs) end ne =
      Closes-cons (frame_of E sha256_hex c) _ (frame_of-not_done c) (
        sse_from-Closes x (parts_after E sha256_hex parts c) (usage_after E sha256_hex u c) cs end
          ne)

  -- A streaming response sends its closing frame once, and as the last frame, whatever the engine
  -- yields: when the stream ends by itself, when it ends with a RuntimeError or ValueError, with or
  -- without a receipt, and also when the receipt cannot be signed. Any other exception breaks the response off.
  pub stream_closes :
      (x : StreamContext E sha256_hex) (cs : List StreamChunk) (end : StreamEnd)
      → end ≢ crashed
      → (body : List Frame) × (sse_generator E sha256_hex x cs end ≡ body ++ done ∷ [])
        × (all (λ f. not (is_done f)) body ≡ true)
  unfolding sse_generator
  stream_closes x cs end ne = sse_from-Closes x [] none cs end ne

  -- The frames of a stream that delivers chunks with text, the final chunk, and a receipt.
  abbrev signed_frames :
      StreamContext E sha256_hex
      → ReceiptSigner E
      → List StreamChunk
      → Text
      → GenerateResult
      → List Frame
  signed_frames x s deltas text r =
      map (λ c. content c.text_delta) deltas
      ++ final r.finish_reason (result_usage r)
        ∷ receipt (attest E sha256_hex x s text (result_usage r))
        ∷ done
        ∷ []

  frame_of-delta :
      (c : StreamChunk) → is_delta c ≡ true → frame_of E sha256_hex c ≡ content c.text_delta
  unfolding frame_of
  frame_of-delta c h = ground arith

  parts_after-delta :
      (parts : List Text) (c : StreamChunk)
      → is_delta c ≡ true
      → parts_after E sha256_hex parts c ≡ parts ++ c.text_delta ∷ []
  unfolding parts_after
  parts_after-delta parts c h = ground arith

  sse_from-signed :
      (x : StreamContext E sha256_hex) (s : ReceiptSigner E) (parts : List Text)
      (u : Option TokenUsage) (deltas : List StreamChunk) (r : GenerateResult)
      → x.want_receipt ≡ true
      → x.signer ≡ some s
      → all is_delta deltas ≡ true
      → sse_from E sha256_hex x parts u (deltas ++ last_chunk r ∷ []) completed
        ≡ signed_frames x s deltas (concat parts ++ streamed_text deltas) r
  unfolding sse_from
  sse_from-signed x s parts u [] r want key plain =
      rw append-nil
        (unfold frame_of parts_after usage_after stream_end last_chunk in rw (want, key) refl)
  sse_from-signed x s parts u (c ∷ deltas) r want key plain =
      rw (frame_of-delta c (ground arith), parts_after-delta parts c (ground arith))
        (ap (λ fs. content c.text_delta ∷ fs)
          (sse_from-signed x s (parts ++ c.text_delta ∷ []) (usage_after E sha256_hex u c) deltas r
              want key (ground arith)
            ∙ ap (λ t. signed_frames x s deltas t r)
                (ap (λ t. t ++ streamed_text deltas)
                    (concat-append parts (c.text_delta ∷ [])
                      ∙ ap (λ t. concat parts ++ t) (append-nil c.text_delta))
                  ∙ append_assoc (concat parts) c.text_delta (streamed_text deltas))))

  client_text-signed :
      (x : StreamContext E sha256_hex) (s : ReceiptSigner E) (deltas : List StreamChunk)
      (text : Text) (r : GenerateResult)
      → client_text (signed_frames x s deltas text r) ≡ streamed_text deltas
  client_text-signed x s [] text r = refl
  client_text-signed x s (c ∷ deltas) text r =
      ap (λ t. c.text_delta ++ t) (client_text-signed x s deltas text r)

  receipts-signed :
      (x : StreamContext E sha256_hex) (s : ReceiptSigner E) (deltas : List StreamChunk)
      (text : Text) (r : GenerateResult)
      → receipts (signed_frames x s deltas text r)
        ≡ attest E sha256_hex x s text (result_usage r) ∷ []
  receipts-signed x s [] text r = refl
  receipts-signed x s (c ∷ deltas) text r = receipts-signed x s deltas text r

  -- Where vLLM's outputs are cumulative and the client asked for a receipt, the text that a client
  -- puts together from the stream is the text that the non-streaming call returns for the same
  -- outputs, and the one receipt sent attests exactly this text and the token counts of the result:
  -- it is the receipt that the non-streaming response would carry.
  pub stream_attested :
      (x : StreamContext E sha256_hex) (os : List RequestOutput) {s : ReceiptSigner E}
      {r : GenerateResult}
      → x.want_receipt ≡ true
      → x.signer ≡ some s
      → generate_result os ≡ some r
      → Grows [] os
      → let fs = sse_generator E sha256_hex x (generate_stream os) completed in
        (client_text fs ≡ r.text)
        × (receipts fs ≡ attest E sha256_hex x s r.text (result_usage r) ∷ [])
  unfolding sse_generator
  stream_attested x os {s} {r} want key result grows =
      let (deltas, split, spelled, plain) = stream_agrees os result grows in
      let frames : sse_from E sha256_hex x [] none (generate_stream os) completed
          ≡ signed_frames x s deltas (streamed_text deltas) r =
        ap (λ cs. sse_from E sha256_hex x [] none cs completed) split
        ∙ sse_from-signed x s [] none deltas r want key plain in
      (
        ap client_text frames ∙ client_text-signed x s deltas (streamed_text deltas) r ∙ spelled,
        ap receipts frames
            ∙ receipts-signed x s deltas (streamed_text deltas) r
            ∙ ap (λ t. attest E sha256_hex x s t (result_usage r) ∷ []) spelled,
      )
