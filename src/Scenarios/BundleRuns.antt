-- ===== src/Scenarios/BundleRuns.antt =====
-- The theorems on a campaign bundle, in an account that holds nothing yet.
use ad_agent.Prelude.{ℕ, zero, suc, String, ◌≡◌, refl, Bool, true, false, Option, some, []}
use ad_agent.Prelude.Result.{ok}
use ad_agent.Ads.Types.{
  same_level, is_valid_level, level_text, is_status, create_fields, validate_create, check_entity,
}
use ad_agent.Ads.Operations.{OperationOutcome}
use ad_agent.Store.Session.{seen}
use ad_agent.Sandbox.Rules.{put}
use ad_agent.Sandbox.Backend.{created_entity, wrong_parent, validate_new, create}
use ad_agent.Sandbox.Bundle.{
  Operated, resource, create_ads, create_group, create_bundle, finish_bundle,
}
use ad_agent.Sandbox.Bundle.Readback.{JsonTexts, reconcile_bundle}
use ad_agent.Sandbox.Bundle.Created.{ids, Distinct}
use ad_agent.Sandbox.Bundle.Round.{create_bundle-reconciles}
use ad_agent.Sandbox.Bundle.Disabled.{Cautious, create_bundle-Cautious}
use ad_agent.Scenarios.Numbers.{Whole, pos, negsuc, whole_decimal}
use ad_agent.Scenarios.ReportRuns.{one_bundle}
use ad_agent.Scenarios.SandboxRuns.{shop_backend}

abbrev pub empty_account : Operated Whole
empty_account = record {
  backend = shop_backend [];
  group_definitions = [];
  group_settings = [];
  ad_settings = [];
}

abbrev some_digits : ℕ → Option String
some_digits zero = some "00"
some_digits (suc zero) = some "01"
some_digits _ = some "02"

abbrev never : ℕ → Bool
never n = false

abbrev pub plain_texts : JsonTexts Whole
plain_texts = record {
  amount_text = λ v. elim v [ pos n ↦ "positive" | negsuc n ↦ "negative" ];
  group_text = λ w. w.name;
}

abbrev bundle_ran : OperationOutcome × Operated Whole
bundle_ran = create_bundle never some_digits one_bundle empty_account

bundle_acknowledged : bundle_ran.0.state ≡ "acknowledged"
unfolding create_bundle create_group create_ads finish_bundle create validate_create create_fields
    check_entity validate_new wrong_parent created_entity is_status is_valid_level same_level seen
    put level_text
bundle_acknowledged = refl

bundle-Distinct : Distinct (ids bundle_ran.0.resources)
unfolding create_bundle create_group create_ads finish_bundle create validate_create create_fields
    check_entity validate_new wrong_parent created_entity is_status is_valid_level same_level seen
    put level_text resource
bundle-Distinct = (refl, (refl, (refl, tt)))

create_bundle-reconciles_example :
    reconcile_bundle plain_texts (λ m. false) false one_bundle bundle_ran.0 bundle_ran.1 ≡ ok true
create_bundle-reconciles_example =
    create_bundle-reconciles plain_texts never some_digits one_bundle empty_account refl
      bundle_acknowledged bundle-Distinct

create_bundle-Cautious_example : Cautious one_bundle empty_account bundle_ran
create_bundle-Cautious_example = create_bundle-Cautious never some_digits one_bundle empty_account
