-- ===== src/Ads/Operations/Validate.antt =====
-- internal/ads/operations.go: OperationRequest.Validate.
pub mod Accepted
use ad_agent.Prelude.{
  ℕ, ◌+◌, ◌==◌, Bool, true, false, not, ◌&&◌, ◌||◌, Option, none, some, [], ◌∷◌, is_some, ltb, eqb,
  if◌then◌else◌, length, any,
}
use ad_agent.Prelude.Result.{Check, err, ◌>>◌, refuse}
use ad_agent.Prelude.Text.{is_blank}
use ad_agent.Ads.Decimal.{Decimal, is_positive, is_negative}
use ad_agent.Ads.Types.{advertiser, same_level, is_valid_level}
use ad_agent.Ads.Operations.{
  OperationKind, create_campaign_bundle, update_ad_group, update_ad_creative, create_audience,
  create_automated_rule, moderate_comment, create_event_source, other_operation, CampaignBundleSpec,
  AdGroupUpdateSpec, AutomatedRuleCreateSpec, RuleCondition, OperationRequest,
}
use ad_agent.Ads.Operations.Fields.{
  Formats, overlaps, one_of, validate_name, validate_time_required, validate_time_optional,
  validate_schedule_order, validate_creatives, validate_ad_update, validate_audience,
  validate_comment, validate_event_source,
}

module _ (fmt : Formats) {D : Type 0} ⦃dec : Decimal D⦄ where
  -- validateCampaignBundle
  unfoldable pub validate_campaign_bundle : CampaignBundleSpec D → Check
  unfolding overlaps validate_name validate_time_required validate_time_optional
      validate_schedule_order validate_creatives
  validate_campaign_bundle v = do
    refuse
        (is_blank v.campaign.name
          || is_blank v.ad_group.name
          || eqb (length v.ads) 0
          || ltb 20 (length v.ads))
        "invalid campaign bundle"
    refuse
        (not (v.campaign.objective == "TRAFFIC") && not (v.campaign.objective == "WEB_CONVERSIONS"))
        "unsupported campaign objective"
    validate_name v.campaign.name
    validate_name v.ad_group.name
    refuse (overlaps v.ad_group.audience_ids v.ad_group.excluded_audience_ids)
        "an audience cannot be both included and excluded"
    refuse (not (v.campaign.status == "DISABLE") || not (v.ad_group.status == "DISABLE"))
        "new campaign bundle must start disabled"
    refuse
        (not (is_positive v.ad_group.budget)
          || v.ad_group.budget_mode == ""
          || v.ad_group.billing_event == ""
          || v.ad_group.optimization_goal == ""
          || v.ad_group.pacing == ""
          || v.ad_group.schedule_type == ""
          || eqb (length v.ad_group.placements) 0
          || eqb (length v.ad_group.location_ids) 0)
        "campaign bundle is missing delivery fields"
    validate_time_required fmt v.ad_group.schedule_start
    validate_time_optional fmt v.ad_group.schedule_end
    validate_schedule_order fmt v.ad_group.schedule_start v.ad_group.schedule_end
    refuse
        (v.campaign.objective == "WEB_CONVERSIONS"
          && (v.ad_group.pixel_id == "" || v.ad_group.optimization_event == ""))
        "conversion campaign requires pixel and optimization event"
    validate_creatives fmt v.ads

  abbrev not_positive : Option D → Bool
  not_positive none = false
  not_positive (some d) = not (is_positive d)

  validate_ad_group_update : Option (AdGroupUpdateSpec D) → Check
  unfolding overlaps validate_time_required validate_time_optional validate_schedule_order
  validate_ad_group_update none = err "ad group update payload required"
  validate_ad_group_update (some u) = do
    refuse (is_blank u.ad_group_id) "ad group update payload required"
    refuse
        (not (is_some u.budget)
          && not (is_some u.bid)
          && u.schedule_start == ""
          && u.schedule_end == ""
          && eqb
              (length u.placements
                + length u.audience_ids
                + length u.excluded_audience_ids
                + length u.location_ids
                + length u.languages)
              0)
        "ad group update is empty"
    refuse (not_positive u.budget || not_positive u.bid) "budget and bid must be positive"
    refuse (overlaps u.audience_ids u.excluded_audience_ids)
        "an audience cannot be both included and excluded"
    validate_time_optional fmt u.schedule_start
    validate_time_optional fmt u.schedule_end
    validate_schedule_order fmt u.schedule_start u.schedule_end

  bad_condition : RuleCondition D → Bool
  unfolding one_of
  bad_condition c =
      not (one_of c.metric ("SPEND" ∷ "CPA" ∷ "CTR" ∷ "CONVERSIONS" ∷ []))
      || not (one_of c.operator ("GT" ∷ "LT" ∷ []))
      || not (one_of c.window ("TODAY" ∷ "LAST_3_DAYS" ∷ "LAST_7_DAYS" ∷ []))
      || is_negative c.value

  abbrev missing_value : Option D → Bool
  missing_value none = true
  missing_value (some d) = not (is_positive d)

  validate_rule : Option (AutomatedRuleCreateSpec D) → Check
  unfolding bad_condition validate_name is_valid_level same_level
  validate_rule none = err "invalid automated rule"
  validate_rule (some r) = do
    refuse
        (is_blank r.name
          || not (is_valid_level r.target_level)
          || same_level r.target_level advertiser
          || eqb (length r.target_ids) 0
          || eqb (length r.conditions) 0)
        "invalid automated rule"
    refuse
        (not (r.action == "NOTIFY")
          && not (r.action == "PAUSE")
          && not (r.action == "CHANGE_BUDGET"))
        "unsupported rule action"
    refuse
        (ltb 50 (length r.target_ids)
          || ltb 8 (length r.conditions)
          || not (r.schedule == "EVERY_30_MINUTES"))
        "unsupported automated rule scope or schedule"
    refuse (r.action == "CHANGE_BUDGET" && missing_value r.action_value)
        "rule action value required"
    refuse (any bad_condition r.conditions) "unsupported automated rule condition"
    validate_name r.name

  validate_bundle : Option (CampaignBundleSpec D) → Check
  unfolding validate_campaign_bundle
  validate_bundle none = err "campaign bundle payload required"
  validate_bundle (some v) = validate_campaign_bundle v

  -- The `switch` of OperationRequest.Validate.
  validate_payload : OperationKind → OperationRequest D → Check
  unfolding validate_bundle validate_ad_group_update validate_ad_update validate_audience
      validate_rule validate_comment validate_event_source
  validate_payload create_campaign_bundle r = validate_bundle r.campaign_bundle
  validate_payload update_ad_group r = validate_ad_group_update r.ad_group_update
  validate_payload update_ad_creative r = validate_ad_update fmt r.ad_update
  validate_payload create_audience r = validate_audience r.audience
  validate_payload create_automated_rule r = validate_rule r.rule
  validate_payload moderate_comment r = validate_comment r.comment
  validate_payload create_event_source r = validate_event_source r.event_source
  validate_payload (other_operation _) r = err "unsupported operation"

  -- How many payloads a request holds.
  unfoldable pub payloads : OperationRequest D → ℕ
  payloads r =
      one r.campaign_bundle
      + one r.ad_group_update
      + one r.ad_update
      + one r.audience
      + one r.rule
      + one r.comment
      + one r.event_source
    where
      one : {A : Type 0} → Option A → ℕ
      one o = if is_some o then 1 else 0

  -- OperationRequest.Validate
  unfoldable pub validate_operation : OperationRequest D → Check
  unfolding payloads validate_payload
  validate_operation r = do
    refuse (not (eqb (payloads r) 1)) "operation requires exactly one payload"
    validate_payload r.kind r
