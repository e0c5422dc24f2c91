-- ===== src/Api/Requests.antt =====
-- src/py-inference/src/inference/api_server.py: what the handlers read of a request: the bearer token,
-- the limit on tokens, the session key, the prompt. FastAPI has parsed and validated the fields.
use openmodel.Base.{
  ℕ, Bool, not, ◌&&◌, ◌||◌, List, [], ◌∷◌, ◌++◌, map, Option, none, some, if◌then◌else◌, ltb, all,
}
use openmodel.Base.Text.{Text, codes, same, is_empty, contains, lower, join, take}
use openmodel.Engine.State.{EngineState}

pub record ChatMessage : Type 0 where
  pub role : Text
  pub content : Text

-- The fields of ChatCompletionRequest, and of CompletionRequest, that the handlers look into;
-- temperature, top_p and stop are only passed on.
pub record ChatCompletionRequest : Type 0 where
  pub model : Text
  pub messages : List ChatMessage
  pub max_tokens : ℕ
  pub stream : Bool
  pub om_continuation : Option Text

pub record CompletionRequest : Type 0 where
  pub model : Text
  pub prompt : Text
  pub max_tokens : ℕ
  pub om_continuation : Option Text

-- The headers that are read; a missing Authorization is the empty text.
pub record Headers : Type 0 where
  pub authorization : Text
  pub x_request_id : Text
  pub x_session_id : Option Text
  pub x_om_receipt_req : Option Text

-- `raised`: `hmac.compare_digest` refuses texts that are not ASCII with a TypeError.
pub data AuthResult : Type 0 where
  allowed unauthorized raised : AuthResult

abbrev pub is_ascii : Text → Bool
is_ascii = all (λ c. ltb c 128)

-- `_require_auth`.
unfoldable pub require_auth : Text → Text → AuthResult
require_auth api_token authorization =
    let expected = codes "Bearer " ++ api_token in
    if is_empty api_token
    then allowed
    else if not (is_ascii authorization && is_ascii expected)
    then raised
    else if same authorization expected
    then allowed
    else unauthorized

-- `_check_max_tokens`; false: HTTP 400.
unfoldable pub check_max_tokens : ℕ → ℕ → Bool
check_max_tokens limit n = not (ltb 0 limit && ltb limit n)

-- `_retry_after_for_state`, in seconds.
unfoldable pub retry_after_for_state : EngineState → ℕ
retry_after_for_state EngineState.loading = 15
retry_after_for_state _ = 60

-- `_is_context_length_error`, of the error's message.
unfoldable pub is_context_length_error : Text → Bool
is_context_length_error e =
    let msg = lower e in
    contains (codes "context length") msg
    || (contains (codes "longer than the maximum") msg
        || (contains (codes "maximum model length") msg
            || (contains (codes "max_model_len") msg
                || (contains (codes "prompt") msg && contains (codes "too long") msg))))

abbrev rendered : ChatMessage → Text
rendered m = m.role ++ (codes ": " ++ m.content)

-- `if request.om_continuation: prompt += request.om_continuation`.
unfoldable pub continued : Text → Option Text → Text
continued prompt none = prompt
continued prompt (some more) = prompt ++ more

-- The prompt of a chat.
unfoldable pub chat_prompt : ChatCompletionRequest → Text
unfolding continued
chat_prompt r = continued (join (codes "\n") (map rendered r.messages)) r.om_continuation

unfoldable pub completion_prompt : CompletionRequest → Text
unfolding continued
completion_prompt r = continued r.prompt r.om_continuation

first_two : List ChatMessage → List ChatMessage
first_two (m ∷ n ∷ rest) = m ∷ n ∷ []
first_two ms = ms

abbrev keyed : ChatMessage → Text
keyed m = m.role ++ (codes ":" ++ m.content)

-- The texts that a session is known by: the first two messages, or the prompt.
unfoldable pub session_parts : List ChatMessage → Text → List Text
unfolding first_two
session_parts (m ∷ ms) prompt = map keyed (first_two (m ∷ ms))
session_parts [] [] = []
session_parts [] (c ∷ prompt) = (codes "p:" ++ c ∷ prompt) ∷ []

hashed_key : (Text → Text) → List Text → Option Text
hashed_key sha256_hex [] = none
hashed_key sha256_hex (p ∷ ps) =
    some (codes "m:" ++ take 32 (sha256_hex (join (codes "\n") (p ∷ ps))))

-- `_engine_session_key`; the empty header counts as none. `sha256_hex` is hashlib's.
unfoldable pub engine_session_key :
    (Text → Text) → Option Text → List ChatMessage → Text → Option Text
unfolding session_parts hashed_key
engine_session_key sha256_hex (some (c ∷ sid)) messages prompt = some (codes "h:" ++ c ∷ sid)
engine_session_key sha256_hex _ messages prompt =
    hashed_key sha256_hex (session_parts messages prompt)
