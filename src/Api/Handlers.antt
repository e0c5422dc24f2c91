-- ===== src/Api/Handlers.antt =====
-- src/py-inference/src/inference/api_server.py: the endpoints, as functions of the request and of what
-- the components answer while it is served. Each gives the reply and the call of the engine, if it
-- makes one.
use openmodel.Base.{
  ℕ, Bool, true, false, not, List, [], ◌∷◌, Option, none, some, String, if◌then◌else◌,
}
use openmodel.Base.Text.{Text, codes, replace, ends_with, is_empty, same}
use openmodel.Engine.State.{EngineState, EngineStatus}
use openmodel.Engine.Outputs.{StreamChunk, GenerateResult}
use openmodel.Receipt.Signer.{Ed25519, ReceiptSigner, Receipt}
use openmodel.Api.Requests.{
  ChatCompletionRequest, CompletionRequest, Headers, allowed, unauthorized, raised, require_auth,
  check_max_tokens, retry_after_for_state, is_context_length_error, chat_prompt, completion_prompt,
  engine_session_key,
}
use openmodel.Api.Stream.{TokenUsage, Frame, StreamEnd, StreamContext, attest, sse_generator}

-- `create_app`'s arguments.
pub record AppSettings : Type 0 where
  pub api_token : Text
  pub max_tokens_limit : ℕ

-- How `engine.generate` ends; `plain_text` is an engine that returns a bare text.
pub data GenerateOutcome : Type 0 where
  generated : GenerateResult → GenerateOutcome
  plain_text runtime_error value_error : Text → GenerateOutcome
  other_error : GenerateOutcome

-- The state in the 503 message.
pub data StateDesc : Type 0 where
  in_state : EngineState → StateDesc
  switching_model : StateDesc

-- `crashed_reply`: an exception that no handler catches, a bare 500.
pub data ApiReply : Type 0 where
  rejected : ℕ → ApiReply
  unavailable : StateDesc → ℕ → ApiReply
  completion : GenerateResult → Receipt → ApiReply
  streaming : List Frame → ApiReply
  crashed_reply : ApiReply

-- What is passed to `engine.generate` or `engine.generate_stream`.
pub record EngineRequest : Type 0 where
  pub prompt : Text
  pub max_tokens : ℕ
  pub session_key : Option Text

abbrev pub Handled : Type 0
Handled = ApiReply × Option EngineRequest

-- The result of an engine that returns a bare text.
abbrev pub bare_result : Text → GenerateResult
bare_result t = record {
  text = t;
  prompt_tokens = 0;
  completion_tokens = 0;
  finish_reason = codes "stop";
  cached_tokens = 0;
}

module _ (E : Ed25519) (sha256_hex : Text → Text) where
  -- What the components answer: whether `_ensure_model_loaded` returned without raising, which
  -- does not say that the engine serves the model; the engine's availability and state, and
  -- whether the switch lock is held, at the check; the outcome of the call.
  pub record Served : Type 0 where
    pub model_ensured : Bool
    pub available : Bool
    pub state : EngineState
    pub switch_locked : Bool
    pub outcome : GenerateOutcome
    pub chunks : List StreamChunk
    pub stream_end : StreamEnd
    pub request_sha256 : Text
    pub signer : Option (ReceiptSigner E)
    pub signer_error : Text
    pub ts : ℕ

  -- The checks that both endpoints make, in order; `none`: the request goes on to the engine.
  unfoldable pub admit : AppSettings → Headers → ℕ → Served → Option ApiReply
  admit app h max_tokens w = elim (require_auth app.api_token h.authorization) [
    | raised ↦ some crashed_reply
    | unauthorized ↦ some (rejected 401)
    | allowed ↦
        if not (check_max_tokens app.max_tokens_limit max_tokens)
        then some (rejected 400)
        else if not w.model_ensured
        then some (rejected 500)
        else if not w.available
        then some (
            unavailable (if w.switch_locked then switching_model else in_state w.state)
              (retry_after_for_state w.state))
        else none
  ]

  unfoldable pub context_of : Headers → Text → Bool → Served → StreamContext E sha256_hex
  context_of h model want w = record {
    want_receipt = want;
    request_id = h.x_request_id;
    model = model;
    request_sha256 = w.request_sha256;
    signer = w.signer;
    signer_error = w.signer_error;
    ts = w.ts;
  }

  abbrev usage_of_result : GenerateResult → TokenUsage
  usage_of_result r = record {
    prompt_tokens = r.prompt_tokens;
    completion_tokens = r.completion_tokens;
    cached_tokens = r.cached_tokens;
  }

  -- The response with its receipt in a header; `get_signer` may raise.
  completed_reply :
      StreamContext E sha256_hex → Option (ReceiptSigner E) → GenerateResult → ApiReply
  completed_reply x none r = crashed_reply
  completed_reply x (some s) r = completion r (attest E sha256_hex x s r.text (usage_of_result r))

  -- After `await engine.generate`.
  unfoldable pub generate_reply : StreamContext E sha256_hex → GenerateOutcome → ApiReply
  unfolding completed_reply
  generate_reply x (generated r) = completed_reply x x.signer r
  generate_reply x (plain_text t) = completed_reply x x.signer (bare_result t)
  generate_reply x (runtime_error e) = rejected 503
  generate_reply x (value_error e) =
      if is_context_length_error e then rejected 400 else crashed_reply
  generate_reply x other_error = crashed_reply

  abbrev wants_receipt : Option Text → Bool
  wants_receipt none = false
  wants_receipt (some v) = same v (codes "1")

  chat_reply : Headers → ChatCompletionRequest → Served → ApiReply
  unfolding context_of generate_reply
  chat_reply h r w =
      let x = context_of h r.model (wants_receipt h.x_om_receipt_req) w in
      if r.stream
      then streaming (sse_generator E sha256_hex x w.chunks w.stream_end)
      else generate_reply x w.outcome

  -- `POST /v1/chat/completions`.
  unfoldable pub chat_completions : AppSettings → Headers → ChatCompletionRequest → Served → Handled
  unfolding admit chat_reply
  chat_completions app h r w = elim (admit app h r.max_tokens w) [
    | some refusal ↦ (refusal, none)
    | none ↦ (
      chat_reply h r w,
      some (record {
        prompt = chat_prompt r;
        max_tokens = r.max_tokens;
        session_key = engine_session_key sha256_hex h.x_session_id r.messages [];
      }),
    )
  ]

  -- `POST /v1/completions`.
  unfoldable pub completions : AppSettings → Headers → CompletionRequest → Served → Handled
  unfolding admit context_of generate_reply
  completions app h r w = elim (admit app h r.max_tokens w) [
    | some refusal ↦ (refusal, none)
    | none ↦ (
      generate_reply (context_of h r.model true w) w.outcome,
      some (record {
        prompt = completion_prompt r;
        max_tokens = r.max_tokens;
        session_key = engine_session_key sha256_hex h.x_session_id [] r.prompt;
      }),
    )
  ]

-- `GET /health`, but for the constants and the public key.
pub record Health : Type 0 where
  pub ok : Bool
  pub engine_state : EngineState
  pub active_requests : ℕ
  pub loaded_model : String

unfoldable pub health : Bool → EngineStatus → Health
health available s = record {
  ok = available;
  engine_state = s.state;
  active_requests = s.active_requests;
  loaded_model = s.loaded_model;
}

unlisted : Text → List Text → List (Text × Bool)
unlisted current [] = []
unlisted current (id ∷ ids) =
    let rest = unlisted current ids in
    if ends_with current (replace b'/' (codes "--") id) then rest else (id, false) ∷ rest

-- `GET /v1/models`: the ids and whether each is loaded, from the FOC registry's ids.
unfoldable pub list_models : Text → List Text → List (Text × Bool)
unfolding unlisted
list_models current registry =
    let shown = if is_empty current then codes "none" else current in
    (shown, true) ∷ unlisted shown registry
