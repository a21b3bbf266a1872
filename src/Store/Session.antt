-- ===== src/Store/Session.antt =====
-- internal/store/store.go: the session record, with the model selection of internal/runtime/model.go.
use ad_agent.Prelude.{ℕ, String, ◌==◌, Option, none, some, List, [], ◌∷◌, if◌then◌else◌}
use ad_agent.Ads.Types.{Source, Entity}

pub record ModelSelection : Type 0 where
  pub provider : String
  pub model : String
  pub reasoning : String
  pub auth_mode : String
  pub api : String
  pub base_url : String
  pub api_key_env : String
  pub context_window : ℕ
  pub max_output_tokens : ℕ

pub record Message : Type 0 where
  pub role : String
  pub text : String
  pub turn_id : String
  pub status : String

pub record Seen (D : Type 0) : Type 0 where
  pub entity : Entity D
  pub at : ℕ

pub record Session (D : Type 0) : Type 0 where
  pub id : String
  pub source : Source
  pub messages : List Message
  pub provenance : List (String × Seen D)
  pub model : ModelSelection
  pub runtime : String
  pub checkpoint : String
  pub execution_contract : String

-- `session.Provenance[id]`
unfoldable pub seen {ℓ} : {V : Type ℓ} → String → List (String × V) → Option V
seen k [] = none
seen k ((j, v) ∷ m) = if j == k then some v else seen k m
