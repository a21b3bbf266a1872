-- ===== src/Ads/Operations.antt =====
-- internal/ads/operations.go: the typed requests of the daily operations, the plan that a backend
-- prepares for one, and what it answers.
pub mod Fields
pub mod Validate
use ad_agent.Prelude.{ℕ, String, ◌==◌, Bool, Option, List}
use ad_agent.Ads.Types.{Level}

pub data OperationKind : Type 0 where
  create_campaign_bundle update_ad_group update_ad_creative create_audience : OperationKind
  create_automated_rule moderate_comment create_event_source : OperationKind
  other_operation : String → OperationKind

pub record CampaignSpec (D : Type 0) : Type 0 where
  pub name : String
  pub objective : String
  pub budget_mode : String
  pub budget : Option D
  pub status : String

pub record AdGroupSpec (D : Type 0) : Type 0 where
  pub name : String
  pub budget : D
  pub budget_mode : String
  pub billing_event : String
  pub optimization_goal : String
  pub optimization_event : String
  pub bid_type : String
  pub bid : Option D
  pub pacing : String
  pub schedule_type : String
  pub schedule_start : String
  pub schedule_end : String
  pub placements : List String
  pub location_ids : List String
  pub languages : List String
  pub age_groups : List String
  pub gender : String
  pub audience_ids : List String
  pub excluded_audience_ids : List String
  pub pixel_id : String
  pub status : String

pub record AdCreativeSpec : Type 0 where
  pub name : String
  pub identity_id : String
  pub identity_type : String
  pub asset_id : String
  pub asset_kind : String
  pub primary_text : String
  pub call_to_action : String
  pub destination_url : String
  pub status : String

pub record CampaignBundleSpec (D : Type 0) : Type 0 where
  pub campaign : CampaignSpec D
  pub ad_group : AdGroupSpec D
  pub ads : List AdCreativeSpec

pub record AdGroupUpdateSpec (D : Type 0) : Type 0 where
  pub ad_group_id : String
  pub budget : Option D
  pub bid : Option D
  pub schedule_start : String
  pub schedule_end : String
  pub placements : List String
  pub audience_ids : List String
  pub excluded_audience_ids : List String
  pub location_ids : List String
  pub languages : List String

pub record AdCreativeUpdateSpec : Type 0 where
  pub ad_id : String
  pub identity_id : String
  pub identity_type : String
  pub asset_id : String
  pub asset_kind : String
  pub primary_text : String
  pub call_to_action : String
  pub destination_url : String

-- `lookalike_ratio` is an int that is compared with 1 and 10 only; it is modelled from 0 on.
pub record AudienceCreateSpec : Type 0 where
  pub name : String
  pub kind : String
  pub source_audience_id : String
  pub location_ids : List String
  pub languages : List String
  pub age_groups : List String
  pub gender : String
  pub lookalike_ratio : ℕ

pub record RuleCondition (D : Type 0) : Type 0 where
  pub metric : String
  pub operator : String
  pub value : D
  pub window : String

pub record AutomatedRuleCreateSpec (D : Type 0) : Type 0 where
  pub name : String
  pub target_level : Level
  pub target_ids : List String
  pub conditions : List (RuleCondition D)
  pub action : String
  pub action_value : Option D
  pub schedule : String

pub record CommentActionSpec : Type 0 where
  pub comment_id : String
  pub ad_id : String
  pub tiktok_item_id : String
  pub action : String
  pub text : String
  pub identity_id : String
  pub identity_type : String

pub record EventSourceCreateSpec : Type 0 where
  pub name : String
  pub kind : String
  pub event_types : List String

pub record OperationRequest (D : Type 0) : Type 0 where
  pub kind : OperationKind
  pub campaign_bundle : Option (CampaignBundleSpec D)
  pub ad_group_update : Option (AdGroupUpdateSpec D)
  pub ad_update : Option AdCreativeUpdateSpec
  pub audience : Option AudienceCreateSpec
  pub rule : Option (AutomatedRuleCreateSpec D)
  pub comment : Option CommentActionSpec
  pub event_source : Option EventSourceCreateSpec

pub record ChangeLine : Type 0 where
  pub resource : String
  pub id : String
  pub name : String
  pub field : String
  pub before : String
  pub after : String

pub record OperationPlan (D : Type 0) : Type 0 where
  pub request : OperationRequest D
  pub lines : List ChangeLine
  pub precondition_hash : String
  pub spend_increasing : Bool

pub record OperationResource : Type 0 where
  pub kind : String
  pub id : String
  pub name : String

-- `state` is one of acknowledged, partial, rejected, unknown and not_sent.
pub record OperationOutcome : Type 0 where
  pub state : String
  pub request_ids : List String
  pub resources : List OperationResource
  pub message : String

-- The text that an operation kind is.
unfoldable pub kind_text : OperationKind → String
kind_text create_campaign_bundle = "campaign_bundle_create"
kind_text update_ad_group = "ad_group_update"
kind_text update_ad_creative = "ad_creative_update"
kind_text create_audience = "audience_create"
kind_text create_automated_rule = "automated_rule_create"
kind_text moderate_comment = "comment_action"
kind_text create_event_source = "event_source_create"
kind_text (other_operation s) = s

-- `==` on operation kinds, which are texts.
unfoldable pub same_operation : OperationKind → OperationKind → Bool
same_operation a b = kind_text a == kind_text b
