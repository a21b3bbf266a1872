-- ===== src/Scenarios/UpdateRuns.antt =====
-- The theorem on the update of an ad group, at a new budget for one.
use ad_agent.Prelude.{◌≡◌, refl, true, false, ◌&&◌, some, [], ◌∷◌}
use ad_agent.Prelude.Result.{ok}
use ad_agent.Ads.Types.{ad_group, same_level}
use ad_agent.Ads.Operations.{AdGroupUpdateSpec, AdCreativeUpdateSpec}
use ad_agent.Store.Session.{seen}
use ad_agent.Sandbox.Backend.{get, write, stored, outcome, written_entity, written_budget}
use ad_agent.Sandbox.Bundle.{Operated}
use ad_agent.Sandbox.Updates.{
  merge_ad_creative, no_group_settings, after_budget, merged_group, apply_group_update,
}
use ad_agent.Sandbox.Updates.Readback.{OtherKeys, creative_matches, reconcile_group}
use ad_agent.Sandbox.Updates.Confirmed.{kind_matches, merge_ad_creative-matches}
use ad_agent.Sandbox.Updates.Round.{apply_group_update-confirmed}
use ad_agent.Scenarios.Numbers.{Whole, pos, whole_decimal}
use ad_agent.Scenarios.World.{text_digests}
use ad_agent.Scenarios.RuleRuns.{spring_group, two_levels}
use ad_agent.Scenarios.SandboxRuns.{shop_backend}
use ad_agent.Scenarios.BundleRuns.{empty_account, plain_texts}

abbrev spring_account : Operated Whole
spring_account = record empty_account { backend = shop_backend two_levels }

abbrev group_update : AdGroupUpdateSpec Whole
group_update = record no_group_settings {
  ad_group_id = "group";
  budget = some (pos 9);
  languages = "en" ∷ [];
}

abbrev no_others : OtherKeys
no_others = record { has_comment = λ id. false; has_audience = λ id. false; has_rule = λ id. false }

group_found : get false ad_group "group" spring_account.backend ≡ ok spring_group
unfolding get seen same_level
group_found = refl

update_acknowledged :
    (apply_group_update (λ n. false) group_update spring_account).0.state ≡ "acknowledged"
unfolding apply_group_update after_budget merged_group get write stored outcome written_entity
    written_budget seen same_level
update_acknowledged = refl

apply_group_update-confirmed_example :
    reconcile_group plain_texts no_others
      (λ n. false)
      group_update
      (apply_group_update (λ n. false) group_update spring_account).0
      (apply_group_update (λ n. false) group_update spring_account).1
    ≡ ok true
apply_group_update-confirmed_example =
    apply_group_update-confirmed plain_texts no_others group_update spring_account group_found refl
      update_acknowledged

-- A type of identity is asked for, with no identity.
abbrev typed_only : AdCreativeUpdateSpec
typed_only = record {
  ad_id = "ad";
  identity_id = "";
  identity_type = "TT_USER";
  asset_id = "";
  asset_kind = "";
  primary_text = "Hello";
  call_to_action = "";
  destination_url = "";
}

abbrev brand_settings : AdCreativeUpdateSpec
brand_settings = record typed_only {
  identity_id = "brand";
  identity_type = "AUTH_CODE";
  primary_text = "";
}

merge_ad_creative-matches_example :
    creative_matches typed_only (merge_ad_creative brand_settings typed_only)
    ≡ (kind_matches "" "TT_USER" "AUTH_CODE" && kind_matches "" "" "")
merge_ad_creative-matches_example = merge_ad_creative-matches brand_settings typed_only
