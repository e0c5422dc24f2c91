-- ===== src/Api/Gates.antt =====
-- src/py-inference/src/inference/api_server.py: which requests reach the engine.
use openmodel.Base.{
  ◌≡◌, ◌⊎◌, ◌≤◌, refl, inl, inr, ℕ, true, ◌++◌, [], ◌∷◌, none, some, arith, Option-cases,
}
use openmodel.Base.Text.{Text, codes, same_iff, is_empty}
use openmodel.Receipt.Signer.{Ed25519}
use openmodel.Api.Requests.{
  ChatCompletionRequest, CompletionRequest, Headers, allowed, require_auth, check_max_tokens,
  chat_prompt, completion_prompt,
}
use openmodel.Api.Handlers.{
  AppSettings, EngineRequest, Served, admit, chat_completions, completions,
}

-- The token is not asked for, or the header is "Bearer " and the token.
abbrev pub Authorized : Text → Text → Type 0
Authorized api_token authorization =
    (api_token ≡ []) ⊎ (authorization ≡ codes "Bearer " ++ api_token)

is_empty-eq : (s : Text) → is_empty s ≡ true → s ≡ []
is_empty-eq [] h = refl
is_empty-eq (c ∷ s) h = cc

require_auth-Authorized :
    (token authorization : Text)
    → require_auth token authorization ≡ allowed
    → Authorized token authorization
unfolding require_auth
require_auth-Authorized [] authorization h = inl refl
require_auth-Authorized (c ∷ token) authorization h =
    inr ((same_iff authorization (codes "Bearer " ++ c ∷ token)).0 (ground arith))

module _ (E : Ed25519) (sha256_hex : Text → Text) where
  -- What holds of an admitted request.
  abbrev pub Admitted : AppSettings → Headers → ℕ → Served E sha256_hex → Type 0
  Admitted app h max_tokens w =
      Authorized app.api_token h.authorization
      × ((app.max_tokens_limit ≡ 0) ⊎ (max_tokens ≤ app.max_tokens_limit))
      × (w.model_ensured ≡ true)
      × (w.available ≡ true)

  admit-Admitted :
      (app : AppSettings) (h : Headers) (n : ℕ) (w : Served E sha256_hex)
      → admit E sha256_hex app h n w ≡ none
      → Admitted app h n w
  unfolding admit check_max_tokens
  admit-Admitted app h n w e = (
    require_auth-Authorized app.api_token h.authorization (ground arith),
    ground arith,
    ground arith,
    ground arith,
  )

  -- A request reaches the engine, by either endpoint, only if it carries the bearer token (where one is
  -- set), asks for no more tokens than the limit (where one is set), `_ensure_model_loaded` returned without
  -- raising and the engine was available at the check; and the engine is then asked for the request's prompt and tokens.
  pub requests_gated :
      (app : AppSettings) (h : Headers) (r : ChatCompletionRequest) (q : CompletionRequest)
      (w : Served E sha256_hex)
      → ((e : EngineRequest)
          → (chat_completions E sha256_hex app h r w).1 ≡ some e
          → Admitted app h e.max_tokens w
            × (e.prompt ≡ chat_prompt r)
            × (e.max_tokens ≡ r.max_tokens))
        × ((e : EngineRequest)
            → (completions E sha256_hex app h q w).1 ≡ some e
            → Admitted app h e.max_tokens w
              × (e.prompt ≡ completion_prompt q)
              × (e.max_tokens ≡ q.max_tokens))
  unfolding chat_completions completions
  requests_gated app h r q w = (chat, completed)
    where
      chat :
          (e : EngineRequest)
          → (chat_completions E sha256_hex app h r w).1 ≡ some e
          → Admitted app h e.max_tokens w
            × (e.prompt ≡ chat_prompt r)
            × (e.max_tokens ≡ r.max_tokens)
      chat e called = elim (Option-cases (admit E sha256_hex app h r.max_tokens w)) [
        | inl pass ↦ ground (arith, admit-Admitted app h r.max_tokens w pass)
        | inr (x, stop) ↦ absurd (ground arith)
      ]

      completed :
          (e : EngineRequest)
          → (completions E sha256_hex app h q w).1 ≡ some e
          → Admitted app h e.max_tokens w
            × (e.prompt ≡ completion_prompt q)
            × (e.max_tokens ≡ q.max_tokens)
      completed e called = elim (Option-cases (admit E sha256_hex app h q.max_tokens w)) [
        | inl pass ↦ ground (arith, admit-Admitted app h q.max_tokens w pass)
        | inr (x, stop) ↦ absurd (ground arith)
      ]
