-- ===== src/Engine/Outputs.antt =====
-- src/py-inference/src/inference/engine.py: what `generate` and `generate_stream` make of vLLM's
-- outputs: GenerateResult, StreamChunk, `_extract_cached_tokens`. Texts are code points.
use openmodel.Base.{ℕ, List, [], ◌∷◌, ◌++◌, Option, none, some, if◌then◌else◌, ltb, ◌&&◌, length}
use openmodel.Base.Text.{Text, codes, contains, lower, drop}

-- `num_cached_tokens`: the attribute is absent, no integer, negative, or a count.
pub data CachedField : Type 0 where
  absent not_a_number negative : CachedField
  cached : ℕ → CachedField

-- What the code reads of a RequestOutput; `none` where an attribute may be missing.
pub record RequestOutput : Type 0 where
  pub text : Text
  pub prompt_token_ids : Option (List ℕ)
  pub token_ids : Option (List ℕ)
  pub vllm_reason : Option Text
  pub num_cached_tokens : CachedField

pub record GenerateResult : Type 0 where
  pub text : Text
  pub prompt_tokens : ℕ
  pub completion_tokens : ℕ
  pub finish_reason : Text
  pub cached_tokens : ℕ

pub record StreamChunk : Type 0 where
  pub text_delta : Text
  pub finish_reason : Option Text
  pub prompt_tokens : ℕ
  pub completion_tokens : ℕ
  pub cached_tokens : ℕ

-- `_extract_cached_tokens`.
unfoldable pub extract_cached_tokens : CachedField → ℕ → ℕ
extract_cached_tokens (cached n) prompt_tokens =
    if ltb 0 prompt_tokens && ltb prompt_tokens n then prompt_tokens else n
extract_cached_tokens _ prompt_tokens = 0

abbrev pub count_ids : Option (List ℕ) → ℕ
count_ids none = 0
count_ids (some ids) = length ids

-- vLLM's finish reason in OpenAI's words.
unfoldable pub map_finish_reason : Option Text → Text
map_finish_reason none = codes "stop"
map_finish_reason (some r) =
    if contains (codes "length") (lower r) then codes "length" else codes "stop"

-- The result of `generate` from the final output.
unfoldable pub result_of : RequestOutput → GenerateResult
unfolding map_finish_reason extract_cached_tokens
result_of o = record {
  text = o.text;
  prompt_tokens = count_ids o.prompt_token_ids;
  completion_tokens = count_ids o.token_ids;
  finish_reason = map_finish_reason o.vllm_reason;
  cached_tokens = extract_cached_tokens o.num_cached_tokens (count_ids o.prompt_token_ids);
}

unfoldable pub final_output : Option RequestOutput → List RequestOutput → Option RequestOutput
final_output final [] = final
final_output final (o ∷ os) = final_output (some o) os

abbrev result_if : Option RequestOutput → Option GenerateResult
unfolding result_of
result_if none = none
result_if (some o) = some (result_of o)

-- `generate` over all outputs; `none`: RuntimeError, there was no output.
unfoldable pub generate_result : List RequestOutput → Option GenerateResult
unfolding result_if final_output
generate_result os = result_if (final_output none os)

-- `if delta: yield StreamChunk(text_delta=delta)`.
unfoldable pub delta_chunk : Text → List StreamChunk
delta_chunk [] = []
delta_chunk (c ∷ s) =
    (record {
      text_delta = c ∷ s;
      finish_reason = none;
      prompt_tokens = 0;
      completion_tokens = 0;
      cached_tokens = 0;
    })
    ∷ []

-- The final chunk of `generate_stream`.
unfoldable pub last_chunk : GenerateResult → StreamChunk
last_chunk r = record {
  text_delta = [];
  finish_reason = some r.finish_reason;
  prompt_tokens = r.prompt_tokens;
  completion_tokens = r.completion_tokens;
  cached_tokens = r.cached_tokens;
}

unfoldable pub final_chunks : Option RequestOutput → List StreamChunk
unfolding last_chunk
final_chunks none = []
final_chunks (some o) = last_chunk (result_of o) ∷ []

-- The loop of `generate_stream`: the text so far, the last output, the outputs to come.
unfoldable pub stream_from : Text → Option RequestOutput → List RequestOutput → List StreamChunk
unfolding delta_chunk final_chunks
stream_from prev final [] = final_chunks final
stream_from prev final (o ∷ os) =
    delta_chunk (drop (length prev) o.text) ++ stream_from o.text (some o) os

unfoldable pub generate_stream : List RequestOutput → List StreamChunk
unfolding stream_from
generate_stream os = stream_from [] none os
