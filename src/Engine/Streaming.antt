-- ===== src/Engine/Streaming.antt =====
-- src/py-inference/src/inference/engine.py: `generate_stream` against `generate` on the same outputs.
use openmodel.Base.{
  ◌≡◌, refl, sym, ap, ◌∙◌, ℕ, List, [], ◌∷◌, ◌++◌, some, length, arith, ◌≤◌, ◌<◌, Bool, true, not,
  ◌&&◌, is_some, all,
}
use mathlib.Core.List.{append-nil, append_assoc}
use openmodel.Base.Text.{Text, drop, is_empty}
use openmodel.Engine.Outputs.{
  RequestOutput, GenerateResult, StreamChunk, result_of, generate_result, delta_chunk, last_chunk,
  stream_from, generate_stream, extract_cached_tokens, CachedField, cached,
}

-- Each output repeats the text before it and goes on: vLLM's cumulative outputs.
abbrev pub Grows : Text → List RequestOutput → Type 0
Grows prev [] = Unit
Grows prev (o ∷ os) = ((more : Text) × (o.text ≡ prev ++ more)) × Grows o.text os

-- The text that a stream has delivered.
abbrev pub streamed_text : List StreamChunk → Text
streamed_text [] = []
streamed_text (c ∷ cs) = c.text_delta ++ streamed_text cs

drop-append : (s t : Text) → drop (length s) (s ++ t) ≡ t
drop-append [] t = refl
drop-append (c ∷ s) t = drop-append s t

streamed_text-append :
    (cs ds : List StreamChunk) → streamed_text (cs ++ ds) ≡ streamed_text cs ++ streamed_text ds
streamed_text-append [] ds = refl
streamed_text-append (c ∷ cs) ds =
    ap (λ t. c.text_delta ++ t) (streamed_text-append cs ds)
    ∙ sym (append_assoc c.text_delta (streamed_text cs) (streamed_text ds))

streamed_text-delta : (s : Text) → streamed_text (delta_chunk s) ≡ s
unfolding delta_chunk
streamed_text-delta [] = refl
streamed_text-delta (c ∷ s) = append-nil (c ∷ s)

-- The chunk carries new text and is not the final one.
abbrev pub is_delta : StreamChunk → Bool
is_delta c = not (is_some c.finish_reason) && not (is_empty c.text_delta)

all_delta : (s : Text) → all is_delta (delta_chunk s) ≡ true
unfolding delta_chunk
all_delta [] = refl
all_delta (c ∷ s) = refl

all-append :
    (cs ds : List StreamChunk)
    → all is_delta cs ≡ true
    → all is_delta ds ≡ true
    → all is_delta (cs ++ ds) ≡ true
all-append [] ds h k = k
all-append (c ∷ cs) ds h k = ground (arith, all-append cs ds)

-- Chunks with new text, which spell the rest of the result's text, and then the final chunk.
abbrev pub Delivers : Text → GenerateResult → List StreamChunk → Type 0
Delivers prev r cs =
    (deltas : List StreamChunk) × (cs ≡ deltas ++ last_chunk r ∷ [])
    × (prev ++ streamed_text deltas ≡ r.text)
    × (all is_delta deltas ≡ true)

Delivers-step :
    (prev next more : Text) (r : GenerateResult) (cs : List StreamChunk)
    → next ≡ prev ++ more
    → Delivers next r cs
    → Delivers prev r (delta_chunk (drop (length prev) next) ++ cs)
Delivers-step prev next more r cs x (deltas, split, spelled, plain) = (
  delta_chunk new ++ deltas,
  ap (λ cs. delta_chunk new ++ cs) split
      ∙ sym (append_assoc (delta_chunk new) deltas (last_chunk r ∷ [])),
  ap (λ t. prev ++ t)
        (streamed_text-append (delta_chunk new) deltas
          ∙ ap (λ t. t ++ streamed_text deltas)
              (streamed_text-delta new ∙ ap (drop (length prev)) x ∙ drop-append prev more))
      ∙ sym (append_assoc prev more (streamed_text deltas))
      ∙ ap (λ t. t ++ streamed_text deltas) (sym x)
      ∙ spelled,
  all-append (delta_chunk new) deltas (all_delta new) plain,
)
  where
    new : Text
    new = drop (length prev) next

stream_from-Delivers :
    (o : RequestOutput) (os : List RequestOutput) (r : GenerateResult)
    → Grows o.text os
    → generate_result (o ∷ os) ≡ some r
    → Delivers o.text r (stream_from o.text (some o) os)
unfolding generate_result stream_from
stream_from-Delivers o [] r g h =
    ([], ground arith, append-nil o.text ∙ (unfold result_of in ground arith), refl)
stream_from-Delivers o (p ∷ os) r ((more, x), g) h =
    Delivers-step o.text p.text more r _ x (stream_from-Delivers p os r g h)

-- If vLLM's outputs are cumulative, then `generate_stream` delivers what `generate` returns for the
-- same outputs: chunks with new text that together spell the result's text, and then one final chunk
-- with the finish reason and the token counts of the result.
pub stream_agrees :
    (os : List RequestOutput) {r : GenerateResult}
    → generate_result os ≡ some r
    → Grows [] os
    → (deltas : List StreamChunk) × (generate_stream os ≡ deltas ++ last_chunk r ∷ [])
      × (streamed_text deltas ≡ r.text)
      × (all is_delta deltas ≡ true)
unfolding generate_stream
stream_agrees [] h g = absurd (unfold generate_result in ground arith)
stream_agrees (o ∷ os) {r} h ((more, x), g) =
    Delivers-step [] o.text more r _ x (stream_from-Delivers o os r g h)

-- The cached tokens that are billed never exceed the prompt's tokens, unless the prompt's are
-- unknown, and they are vLLM's count whenever that is a count within the prompt.
cached_tokens_bounded :
    (f : CachedField) (prompt_tokens : ℕ)
    → (0 < prompt_tokens → extract_cached_tokens f prompt_tokens ≤ prompt_tokens)
      × ((n : ℕ) → f ≡ cached n → n ≤ prompt_tokens → extract_cached_tokens f prompt_tokens ≡ n)
unfolding extract_cached_tokens
cached_tokens_bounded (cached m) p = (λ h. ground arith, λ n e h. ground arith)
cached_tokens_bounded _ p = (λ h. omega arith, λ n e h. ground arith)
