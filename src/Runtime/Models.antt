-- ===== src/Runtime/Models.antt =====
-- internal/runtime/model.go and ValidateCodexModel of codex.go: which model selections are accepted.
-- Token limits are modelled from 0 on: a negative one is refused like 0 by the direct APIs.
use ad_agent.Prelude.{
  String, ◌==◌, Bool, false, not, ◌&&◌, ◌||◌, Option, none, some, List, [], ◌∷◌, any, ltb, eqb,
  if◌then◌else◌,
}
use ad_agent.Prelude.Result.{Result, Check, ok, err, ◌>>◌, refuse}
use ad_agent.Runtime.Patterns.{is_model_name, is_env_name}
use ad_agent.Store.Session.{ModelSelection}

-- net/url's parts of a URL that the code reads.
pub record ModelUrl : Type 0 where
  pub scheme : String
  pub host : String
  pub hostname : String
  pub raw_query : String
  pub fragment : String
  pub has_user : Bool

-- What the code takes from Go: url.Parse, and whether net.ParseIP reads a loopback address.
pub record ModelLibrary : Type 0 where
  pub parse_url : String → Option ModelUrl
  pub is_loopback_ip : String → Bool

pub record ModelOption : Type 0 where
  pub provider : String
  pub model : String

abbrev pub codex_provider : String
codex_provider = "openai-codex"

abbrev pub default_model : String
default_model = "gpt-5.6-luna"

abbrev pub chatgpt_oauth : String
chatgpt_oauth = "chatgpt_oauth"

abbrev pub api_key_auth : String
api_key_auth = "api_key"

abbrev pub anthropic_messages : String
anthropic_messages = "anthropic-messages"

abbrev pub openai_responses : String
openai_responses = "openai-responses"

abbrev pub openai_completions : String
openai_completions = "openai-completions"

codex_option : String → ModelOption
codex_option m = record { provider = codex_provider; model = m }

unfoldable pub supported_models : List ModelOption
unfolding codex_option
supported_models =
    codex_option "gpt-5.3-codex-spark"
    ∷ codex_option "gpt-5.4"
    ∷ codex_option "gpt-5.4-mini"
    ∷ codex_option "gpt-5.5"
    ∷ codex_option default_model
    ∷ codex_option "gpt-5.6-sol"
    ∷ codex_option "gpt-5.6-terra"
    ∷ []

-- The zero value of ModelSelection.
abbrev pub no_model : ModelSelection
no_model = record {
  provider = "";
  model = "";
  reasoning = "";
  auth_mode = "";
  api = "";
  base_url = "";
  api_key_env = "";
  context_window = 0;
  max_output_tokens = 0;
}

unfoldable pub default_model_selection : ModelSelection
default_model_selection = record no_model {
  provider = codex_provider;
  model = default_model;
  reasoning = "medium";
  auth_mode = chatgpt_oauth;
}

-- `==` on selections, field by field.
unfoldable pub same_model : ModelSelection → ModelSelection → Bool
same_model a b =
    a.provider == b.provider
    && a.model == b.model
    && a.reasoning == b.reasoning
    && a.auth_mode == b.auth_mode
    && a.api == b.api
    && a.base_url == b.base_url
    && a.api_key_env == b.api_key_env
    && eqb a.context_window b.context_window
    && eqb a.max_output_tokens b.max_output_tokens

module _ (lib : ModelLibrary) where
  safe_parts : Option ModelUrl → Bool
  safe_parts none = false
  safe_parts (some u) =
      not (u.host == "" || u.has_user || not (u.raw_query == "") || not (u.fragment == ""))
      && (u.scheme == "https"
          || u.scheme == "http" && (u.hostname == "localhost" || lib.is_loopback_ip u.hostname))

  -- safeModelBaseURL
  unfoldable pub safe_model_base_url : String → Bool
  unfolding safe_parts
  safe_model_base_url raw = safe_parts (lib.parse_url raw)

  unfoldable pub validate_oauth_model : ModelSelection → Check
  unfolding supported_models
  validate_oauth_model s = do
    refuse
        (not (s.api == "")
          || not (s.base_url == "")
          || not (s.api_key_env == "")
          || not (eqb s.context_window 0)
          || not (eqb s.max_output_tokens 0))
        "OAuth model cannot include direct HTTP configuration"
    refuse (not (any (λ o. s.provider == o.provider && s.model == o.model) supported_models))
        "unsupported OAuth provider or model"
    ok tt

  unfoldable pub validate_direct_model : ModelSelection → Check
  unfolding is_model_name is_env_name safe_model_base_url
  validate_direct_model s = do
    refuse
        (not (is_model_name s.provider)
          || not (is_model_name s.model)
          || not (is_env_name s.api_key_env))
        "invalid direct model identity or API key environment variable"
    refuse
        (not (s.api == anthropic_messages)
          && not (s.api == openai_responses)
          && not (s.api == openai_completions))
        "unsupported direct model API protocol"
    refuse (not (safe_model_base_url s.base_url)) "model base URL must be HTTPS or loopback HTTP"
    refuse
        (ltb s.context_window 4096
          || ltb 4_000_000 s.context_window
          || ltb s.max_output_tokens 256
          || ltb s.context_window s.max_output_tokens)
        "invalid direct model token limits"
    ok tt

  -- ValidateModel
  unfoldable pub validate_model : ModelSelection → Check
  unfolding validate_oauth_model validate_direct_model
  validate_model s = do
    refuse (not (s.reasoning == "medium")) "unsupported reasoning policy"
    if s.auth_mode == chatgpt_oauth
        then validate_oauth_model s
        else if s.auth_mode == api_key_auth
        then validate_direct_model s
        else err "unsupported model authentication mode"

  with_default : ModelSelection → ModelSelection
  unfolding default_model_selection
  with_default s =
      if s.provider == "" && s.model == "" && s.reasoning == "" then default_model_selection else s

  with_auth_mode : ModelSelection → ModelSelection
  with_auth_mode s =
      if s.auth_mode == "" && s.provider == codex_provider
      then record s { auth_mode = chatgpt_oauth }
      else s

  -- NormalizeModel
  unfoldable pub normalize_model : ModelSelection → Result ModelSelection
  unfolding with_default with_auth_mode
  normalize_model s = do
    let normalized = with_auth_mode (with_default s)
    validate_model normalized
    ok normalized

  -- ValidateCodexModel
  unfoldable pub validate_codex_model : ModelSelection → Check
  validate_codex_model m = do
    validate_model m
    refuse (m.auth_mode == api_key_auth && not (m.api == openai_responses))
        "codex_requires_responses_protocol"
    ok tt
