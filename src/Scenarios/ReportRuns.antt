-- ===== src/Scenarios/ReportRuns.antt =====
-- The theorems on reports, policies and requests, at small ones.
use ad_agent.Prelude.{ℕ, ◌+◌, String, ◌≡◌, refl, true, some, none, [], ◌∷◌}
use ad_agent.Prelude.Result.{Result, ok, err}
use ad_agent.Prelude.Sorting.{sort, insert}
use ad_agent.Ads.Types.{campaign, same_level, is_valid_level, check_entity}
use ad_agent.Ads.Operations.{
  create_campaign_bundle, AdCreativeSpec, CampaignBundleSpec, OperationRequest,
}
use ad_agent.Ads.Operations.Fields.{
  overlaps, validate_name, validate_time_required, validate_time_optional, validate_schedule_order,
  validate_creatives, incomplete_creative, valid_https_url,
}
use ad_agent.Ads.Operations.Validate.{payloads, validate_operation, validate_campaign_bundle}
use ad_agent.Ads.Operations.Validate.Accepted.{Accepted, validate_operation-Accepted}
use ad_agent.Ads.Change.{budget_change}
use ad_agent.Ads.Change.Policy.{sandbox_policy, within_limits, expected_after, validate_change}
use ad_agent.Ads.Change.Policy.Allowed.{NoCollision, Allowed, validate_change-Allowed}
use ad_agent.Ads.Dates.{parse_date}
use ad_agent.Ads.Metrics.{Metrics, zero_metrics, add, add_optional, add_optional_int, ratio}
use ad_agent.Ads.Report.{validate_query, Report}
use ad_agent.Ads.Report.Window.{Window, validate_query-Window}
use ad_agent.Ads.Analysis.{
  Calculation, equal_nullable, add_to_group, summed, totals_match, ranks_before, analyze,
}
use ad_agent.Ads.Analysis.Ranking.{Ranked, analyze-Ranked}
use ad_agent.Ads.Comparison.{Comparison, compare_reports}
use ad_agent.Scenarios.Numbers.{Whole, pos, whole_decimal, whole_flips}
use ad_agent.Scenarios.World.{shop_source, with_budget, text_digests, plain_formats}

change_passes :
    validate_change sandbox_policy (with_budget 10) (with_budget 12) budget_change ≡ ok tt
unfolding validate_change expected_after within_limits same_level check_entity is_valid_level
change_passes = refl

no_collision : NoCollision (with_budget 10) (with_budget 12)
no_collision = record { on_budget = λ h. refl; on_status = λ h. cc h }

validate_change-Allowed_example :
    Allowed sandbox_policy (with_budget 10) (with_budget 12) budget_change
    × (check_entity (with_budget 12) "shop" ≡ ok tt)
validate_change-Allowed_example =
    validate_change-Allowed sandbox_policy (with_budget 10) (with_budget 12) budget_change
      no_collision change_passes

abbrev one_ad : AdCreativeSpec
one_ad = record {
  name = "Spring ad";
  identity_id = "i";
  identity_type = "BC";
  asset_id = "a";
  asset_kind = "video";
  primary_text = "Spring";
  call_to_action = "SHOP_NOW";
  destination_url = "https://shop.example";
  status = "DISABLE";
}

abbrev pub one_bundle : CampaignBundleSpec Whole
one_bundle = record {
  campaign = record {
    name = "Spring";
    objective = "TRAFFIC";
    budget_mode = "";
    budget = none;
    status = "DISABLE";
  };
  ad_group = record {
    name = "Everyone";
    budget = pos 20;
    budget_mode = "DAILY";
    billing_event = "CPC";
    optimization_goal = "CLICK";
    optimization_event = "";
    bid_type = "";
    bid = none;
    pacing = "SMOOTH";
    schedule_type = "FROM_NOW";
    schedule_start = "2026-01-01 00:00:00";
    schedule_end = "";
    placements = "TIKTOK" ∷ [];
    location_ids = "US" ∷ [];
    languages = [];
    age_groups = [];
    gender = "";
    audience_ids = [];
    excluded_audience_ids = [];
    pixel_id = "";
    status = "DISABLE";
  };
  ads = one_ad ∷ [];
}

abbrev bundle_request : OperationRequest Whole
bundle_request = record {
  kind = create_campaign_bundle;
  campaign_bundle = some one_bundle;
  ad_group_update = none;
  ad_update = none;
  audience = none;
  rule = none;
  comment = none;
  event_source = none;
}

bundle_passes : validate_operation plain_formats bundle_request ≡ ok tt
unfolding validate_operation validate_campaign_bundle overlaps validate_name validate_time_required
    validate_time_optional validate_schedule_order validate_creatives incomplete_creative
    valid_https_url payloads
bundle_passes = refl

validate_operation-Accepted_example :
    (payloads plain_formats bundle_request ≡ 1)
    × Accepted plain_formats bundle_request create_campaign_bundle
validate_operation-Accepted_example =
    validate_operation-Accepted plain_formats bundle_request bundle_passes

abbrev sold : ℕ → ℕ → Metrics Whole
sold spend revenue = record zero_metrics { spend = pos spend; revenue = some (pos revenue) }

abbrev report_of : String → String → String → ℕ → ℕ → Report Whole
report_of id start end first second = record {
  id = id;
  source = shop_source;
  query = record { level = campaign; start_date = start; end_date = end; entity_id = "" };
  currency = "USD";
  timezone = "UTC";
  attribution = "click";
  fetched_at = 0;
  complete = true;
  limitations = [];
  rows =
      record { entity_id = "b"; date = start; metrics = sold 10 first }
      ∷ record { entity_id = "a"; date = start; metrics = sold 10 second }
      ∷ record { entity_id = "b"; date = end; metrics = sold 10 first }
      ∷ [];
  totals = sold 30 (first + first + second);
  request_ids = [];
}

abbrev january : Report Whole
january = report_of "r1" "2026-01-01" "2026-01-31" 20 30

abbrev february : Report Whole
february = report_of "r2" "2026-02-01" "2026-03-03" 40 10

abbrev value_of : {A : Type 0} → A → Result A → A
value_of a (ok b) = b
value_of a (err e) = a

window_passes : validate_query january.query ≡ ok tt
unfolding validate_query parse_date is_valid_level
window_passes = refl

validate_query-Window_example : Window january.query
validate_query-Window_example = validate_query-Window january.query window_passes

abbrev january_calculation : Calculation Whole
january_calculation =
    value_of
      (record {
        source = shop_source;
        query = january.query;
        currency = "";
        timezone = "";
        attribution = "";
        id = "";
        report_id = "";
        method = "";
        totals = zero_metrics;
        return_on_spend = none;
        ranking = [];
        limitations = [];
      })
      (analyze january)

analysis_runs : analyze january ≡ ok january_calculation
unfolding analyze summed add_to_group totals_match equal_nullable ranks_before add add_optional
    add_optional_int ratio sort insert
analysis_runs = refl

analyze-Ranked_example : Ranked january january_calculation
analyze-Ranked_example = analyze-Ranked whole_flips january analysis_runs

abbrev no_comparison : Comparison Whole
no_comparison = record {
  source = shop_source;
  current_query = january.query;
  previous_query = january.query;
  currency = "";
  timezone = "";
  attribution = "";
  id = "";
  current_report_id = "";
  previous_report_id = "";
  previous = zero_metrics;
  current = zero_metrics;
  previous_roas = none;
  current_roas = none;
  delta_roas = none;
  contributions = [];
  method = "";
  limitations = [];
}

abbrev both_months : Comparison Whole
both_months = value_of no_comparison (compare_reports january february)
