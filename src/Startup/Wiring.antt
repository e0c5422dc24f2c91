-- ===== src/Startup/Wiring.antt =====
-- src/py-inference/src/main.py: how `main` builds its parts from the configuration, and what that means for
-- the requests that reach the engine.
use openmodel.Base.{◌≡◌, ◌⊎◌, ◌≤◌, ℕ, List, [], ◌++◌, Option, none, some}
use openmodel.Base.Text.{Text, codes}
use openmodel.Receipt.Signer.{Ed25519}
use openmodel.Config.Devices.{get}
use openmodel.Config.Load.{ConfigFile, Environment, AppConfig, load_config, load_inference}
use openmodel.Models.Foc.{RegistryEntry}
use openmodel.Models.MockClient.{FocFactoryConfig}
use openmodel.Api.Requests.{ChatCompletionRequest, CompletionRequest, Headers}
use openmodel.Api.Handlers.{AppSettings, EngineRequest, Served, chat_completions, completions}
use openmodel.Api.Gates.{Authorized, requests_gated}

-- What `create_foc_client` gets, with the registries of the file.
unfoldable pub foc_factory_config :
    AppConfig → List (Text × Text) → List (Text × RegistryEntry) → FocFactoryConfig
foc_factory_config c models cids = record {
  backend = c.foc.backend;
  model_registry = models;
  bridge_url = c.foc.real_bridge_url;
  piece_cid_registry = cids;
}

-- MODEL_CACHE_DIR, or a directory in the home directory.
unfoldable pub model_cache_dir : Option Text → Text → Text
model_cache_dir none home = home ++ codes "/openmodel/models"
model_cache_dir (some dir) home = dir

-- What `create_app` gets.
unfoldable pub app_settings : AppConfig → AppSettings
app_settings c = record {
  api_token = c.inference.api_token;
  max_tokens_limit = c.inference.max_tokens_limit;
}

-- The token in force: the environment's, where it is set there, else the file's.
abbrev token_in_force : Environment → ConfigFile → Text
token_in_force env raw = get env.inference_api_token (get raw.inference.api_token [])

-- By the configuration a request with these headers may ask the engine for `n` tokens.
abbrev AsksWithin : Environment → ConfigFile → Headers → ℕ → Type 0
AsksWithin env raw h n =
    Authorized (token_in_force env raw) h.authorization
    × ((get raw.inference.max_tokens_limit 0 ≡ 0) ⊎ (n ≤ get raw.inference.max_tokens_limit 0))

-- In a process that was configured by this file and environment, a request reaches the engine, by either
-- endpoint, only if the token in force and the file's limit let it.
requests_entitled :
    (E : Ed25519) (sha256_hex : Text → Text) (detected : ℕ) (env : Environment) (raw : ConfigFile)
    (h : Headers) (r : ChatCompletionRequest) (q : CompletionRequest) (w : Served E sha256_hex)
    → let app = app_settings (load_config detected env raw) in
      ((e : EngineRequest)
        → (chat_completions E sha256_hex app h r w).1 ≡ some e
        → AsksWithin env raw h e.max_tokens)
      × ((e : EngineRequest)
          → (completions E sha256_hex app h q w).1 ≡ some e
          → AsksWithin env raw h e.max_tokens)
unfolding app_settings load_config load_inference
requests_entitled E sha256_hex detected env raw h r q w =
    let app = app_settings (load_config detected env raw) in
    let (chat, plain) = requests_gated E sha256_hex app h r q w in
    (
      λ e called. let (admitted, _, _) = chat e called in (admitted.0, admitted.1),
      λ e called. let (admitted, _, _) = plain e called in (admitted.0, admitted.1),
    )
