-- ===== src/Ads/Types.antt =====
-- internal/ads/types.go: levels, sources, accounts, entities, and the requests to the backends.
-- The text types of the source keep their text; `Level`, whose values the code tests by `Valid`,
-- has a constructor for any other text.
use ad_agent.Prelude.{
  String, ◌==◌, ◌≡◌, Bool, true, false, not, ◌&&◌, ◌||◌, Option, none, some, List, ltb, is_some,
  ◌↔◌, arith, eq_iff,
}
use ad_agent.Prelude.Text.{byte_length, is_blank}
use ad_agent.Prelude.Result.{Check, ok, ◌>>◌, refuse}
use ad_agent.Ads.Decimal.{Decimal, is_negative}

pub data Level : Type 0 where
  advertiser campaign ad_group ad : Level
  other_level : String → Level

-- `==` on levels.
unfoldable pub same_level : Level → Level → Bool
same_level advertiser advertiser = true
same_level campaign campaign = true
same_level ad_group ad_group = true
same_level ad ad = true
same_level (other_level a) (other_level b) = a == b
same_level _ _ = false

pub same_level_iff : (a b : Level) → (same_level a b ≡ true) ↔ (a ≡ b)
unfolding same_level
same_level_iff (other_level a) (other_level b) = ground (arith, eq_iff a b)
same_level_iff _ _ = ground arith

-- `string(level)`
unfoldable pub level_text : Level → String
level_text advertiser = "advertiser"
level_text campaign = "campaign"
level_text ad_group = "ad_group"
level_text ad = "ad"
level_text (other_level s) = s

-- Level.Valid
unfoldable pub is_valid_level : Level → Bool
is_valid_level (other_level _) = false
is_valid_level _ = true

pub record Source : Type 0 where
  pub backend : String
  pub environment : String
  pub account_id : String

-- `==` on sources, field by field.
unfoldable pub same_source : Source → Source → Bool
same_source a b =
    a.backend == b.backend && a.environment == b.environment && a.account_id == b.account_id

pub same_source→eq : (a b : Source) → same_source a b ≡ true → a ≡ b
unfolding same_source
same_source→eq a b h = ground (
  arith,
  eq_iff a.backend b.backend,
  eq_iff a.environment b.environment,
  eq_iff a.account_id b.account_id,
)

pub record Account : Type 0 where
  pub id : String
  pub name : String
  pub currency : String
  pub timezone : String
  pub source : Source
  pub latest_date : String
  pub limitations : List String

pub record Entity (D : Type 0) : Type 0 where
  pub id : String
  pub account_id : String
  pub level : Level
  pub parent_id : String
  pub name : String
  pub status : String
  pub budget : Option D
  pub budget_mode : String
  pub objective : String

pub record EntityQuery : Type 0 where
  pub level : Level
  pub parent_id : String

pub record WriteRequest (D : Type 0) : Type 0 where
  pub target : Entity D
  pub kind : String
  pub budget : Option D
  pub status : String

-- `state` is one of acknowledged, rejected, unknown and not_sent.
pub record WriteOutcome : Type 0 where
  pub state : String
  pub request_id : String
  pub message : String

pub record CreateRequest (D : Type 0) : Type 0 where
  pub level : Level
  pub parent_id : String
  pub name : String
  pub status : String
  pub budget : Option D
  pub budget_mode : String
  pub objective : String

unfoldable pub is_status : String → Bool
is_status s = s == "ENABLE" || s == "DISABLE"

module _ {D : Type 0} ⦃dec : Decimal D⦄ where
  abbrev pub negative_budget : Option D → Bool
  negative_budget none = false
  negative_budget (some b) = is_negative b

  -- CheckEntity
  unfoldable pub check_entity : Entity D → String → Check
  unfolding is_status same_level is_valid_level
  check_entity e account = do
    refuse
        (e.id == ""
          || not (e.account_id == account)
          || not (is_valid_level e.level)
          || same_level e.level advertiser)
        "invalid account-scoped entity"
    refuse (not (is_status e.status)) "unsupported operation status"
    refuse (negative_budget e.budget) "negative budget"
    ok tt

  -- The fields that a campaign, an ad group and an ad may be created with.
  unfoldable pub create_fields : CreateRequest D → Level → Check
  create_fields r campaign = refuse (not (r.parent_id == "")) "campaign cannot have a parent"
  create_fields r ad_group =
      refuse (r.parent_id == "" || not (r.objective == "")) "invalid ad group create fields"
  create_fields r ad =
      refuse
        (r.parent_id == ""
          || is_some r.budget
          || not (r.budget_mode == "")
          || not (r.objective == ""))
        "invalid ad create fields"
  create_fields r _ = ok tt

  -- CreateRequest.Validate
  unfoldable pub validate_create : CreateRequest D → Check
  unfolding is_status same_level create_fields
  validate_create r = do
    refuse
        (not (same_level r.level campaign)
          && not (same_level r.level ad_group)
          && not (same_level r.level ad))
        "invalid create level"
    refuse (is_blank r.name || ltb 512 (byte_length r.name)) "invalid create name"
    refuse (not (is_status r.status)) "invalid create status"
    refuse (negative_budget r.budget) "negative create budget"
    refuse
        (is_some r.budget && r.budget_mode == ""
          || not (is_some r.budget) && not (r.budget_mode == ""))
        "create budget and mode must be supplied together"
    create_fields r r.level
