-- ===== src/Api/Examples.antt =====
-- Requests to src/py-inference/src/inference/api_server.py, and the theorems about it at them.
use openmodel.Base.{
  ◌≡◌, ◌≤◌, ◌↔◌, ◌⊎◌, refl, ℕ, ◌+◌, true, false, not, all, total, arith, List, [], ◌∷◌, ◌++◌,
  Option, none, some,
}
use openmodel.Base.Text.{Text, codes, replace, same, contains, starts_with}
use openmodel.Engine.State.{running}
use openmodel.Engine.Outputs.{
  RequestOutput, GenerateResult, generate_result, generate_stream, result_of, cached,
}
use openmodel.Receipt.Examples.{plain_keys, first_signer}
use openmodel.Api.Names.{model_matches}
use openmodel.Api.Matching.{model_matches_iff}
use openmodel.Api.Requests.{
  ChatMessage, ChatCompletionRequest, CompletionRequest, Headers, chat_prompt, completion_prompt,
}
use openmodel.Api.Stream.{Frame, done, refused, completed, StreamContext, attest, sse_generator}
use openmodel.Api.Attested.{
  is_done, receipts, client_text, result_usage, stream_closes, stream_attested,
}
use openmodel.Api.Handlers.{
  AppSettings, generated, EngineRequest, Served, chat_completions, completions,
}
use openmodel.Api.Gates.{Admitted, requests_gated}
use openmodel.Api.Switch.{
  SwitchRound, arrives, happens, resumed, raised, fetched, returned, abandoned, switch_init,
  switch_schedule,
}
use openmodel.Api.Once.{fails, switch_once}

abbrev no_hash : Text → Text
no_hash t = t

abbrev context : StreamContext plain_keys no_hash
context = record {
  want_receipt = true;
  request_id = codes "r-1";
  model = codes "llama";
  request_sha256 = codes "0f";
  signer = some first_signer;
  signer_error = [];
  ts = 1700000000;
}

abbrev output : Text → List ℕ → Option Text → RequestOutput
output text ids reason = record {
  text = text;
  prompt_token_ids = some (1 ∷ 2 ∷ []);
  token_ids = some ids;
  vllm_reason = reason;
  num_cached_tokens = cached 5;
}

abbrev outputs : List RequestOutput
outputs =
    output (codes "He") (7 ∷ []) none
    ∷ output (codes "He") (7 ∷ []) none
    ∷ output (codes "Hello") (7 ∷ 8 ∷ []) (some (codes "stop"))
    ∷ []

abbrev outcome : GenerateResult
outcome = record {
  text = codes "Hello";
  prompt_tokens = 2;
  completion_tokens = 2;
  finish_reason = codes "stop";
  cached_tokens = 2;
}

-- The core dies after two outputs.
stream_closes_example :
    (body : List Frame) × (sse_generator plain_keys no_hash context
        (generate_stream outputs)
        (refused (codes "died"))
      ≡ body ++ done ∷ [])
    × (all (λ f. not (is_done f)) body ≡ true)
stream_closes_example =
    stream_closes plain_keys no_hash context (generate_stream outputs) (refused (codes "died"))
      (λ e. ground arith)

stream_attested_example :
    let fs = sse_generator plain_keys no_hash context (generate_stream outputs) completed in
    (client_text fs ≡ codes "Hello")
    × (receipts fs
        ≡ attest plain_keys no_hash context first_signer (codes "Hello") (result_usage outcome)
          ∷ [])
stream_attested_example =
    stream_attested plain_keys no_hash context outputs {s = first_signer} {r = outcome} refl refl
      (unfold generate_result result_of contains starts_with in refl)
      ((codes "He", refl), (([], refl), ((codes "llo", refl), tt)))

abbrev message : ChatMessage
message = record { role = codes "user"; content = codes "hi" }

abbrev chat : ChatCompletionRequest
chat = record {
  model = codes "llama";
  messages = message ∷ [];
  max_tokens = 64;
  stream = false;
  om_continuation = none;
}

abbrev plain : CompletionRequest
plain = record {
  model = codes "llama";
  prompt = codes "hi";
  max_tokens = 64;
  om_continuation = none;
}

abbrev headers : Headers
headers = record {
  authorization = codes "Bearer s3cret";
  x_request_id = codes "r-1";
  x_session_id = none;
  x_om_receipt_req = none;
}

abbrev settings : AppSettings
settings = record { api_token = codes "s3cret"; max_tokens_limit = 128 }

abbrev components : Served plain_keys no_hash
components = record {
  model_ensured = true;
  available = true;
  state = running;
  switch_locked = false;
  outcome = generated outcome;
  chunks = [];
  stream_end = completed;
  request_sha256 = codes "0f";
  signer = some first_signer;
  signer_error = [];
  ts = 1700000000;
}

requests_gated_example :
    ((e : EngineRequest)
      → (chat_completions plain_keys no_hash settings headers chat components).1 ≡ some e
      → Admitted plain_keys no_hash settings headers e.max_tokens components
        × (e.prompt ≡ chat_prompt chat)
        × (e.max_tokens ≡ 64))
    × ((e : EngineRequest)
        → (completions plain_keys no_hash settings headers plain components).1 ≡ some e
        → Admitted plain_keys no_hash settings headers e.max_tokens components
          × (e.prompt ≡ completion_prompt plain)
          × (e.max_tokens ≡ 64))
requests_gated_example = requests_gated plain_keys no_hash settings headers chat plain components

abbrev qwen : Text
qwen = codes "qwen"

-- Three requests for a new model: the first download fails, the switch of the second is given up for a
-- pause, the third switches, and a fourth waits for the lock meanwhile.
abbrev rush : List SwitchRound
rush =
    arrives qwen
    ∷ arrives qwen
    ∷ arrives qwen
    ∷ arrives qwen
    ∷ happens 0 resumed
    ∷ happens 1 resumed
    ∷ happens 2 resumed
    ∷ happens 3 resumed
    ∷ happens 0 resumed
    ∷ happens 1 resumed
    ∷ happens 0 raised
    ∷ happens 1 resumed
    ∷ happens 1 (fetched qwen)
    ∷ happens 1 abandoned
    ∷ happens 2 resumed
    ∷ happens 2 (fetched qwen)
    ∷ happens 3 resumed
    ∷ happens 2 returned
    ∷ happens 3 resumed
    ∷ []

switch_once_example :
    let s = switch_schedule true rush (switch_init (codes "llama")) in
    s.calls ≤ total fails s.tasks + 1
unfolding switch_schedule switch_init model_matches same
switch_once_example = switch_once qwen (codes "llama") true rush refl

model_matches_iff_example :
    (model_matches (codes "/models/org--llama") (codes "org/llama") ≡ true) ↔ (
      (codes "/models/org--llama" ≡ codes "org/llama")
      ⊎ (codes "org--llama" ≡ replace b'/' (codes "--") (codes "org/llama")))
model_matches_iff_example =
    model_matches_iff (codes "/models") (codes "org--llama") (codes "org/llama")
      ((λ e. ground arith), ground arith, ground arith) (ground arith)
