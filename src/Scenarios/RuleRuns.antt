-- ===== src/Scenarios/RuleRuns.antt =====
-- The theorems on the sandbox's rules, at a campaign with one ad group.
use ad_agent.Prelude.{
  String, ◌==◌, ◌≡◌, refl, sym, subst, ◌⊎◌, ◌<◌, none, some, List, [], ◌∷◌, arith, Bool-cases, inl,
  inr,
}
use ad_agent.Ads.Types.{campaign, ad_group, Entity}
use ad_agent.Store.Session.{seen}
use ad_agent.Sandbox.Rules.{Calendar, HourFact, RuleState, depth}
use ad_agent.Sandbox.Rules.Climb.{Levelled, Climbed, climb-enough}
use ad_agent.Sandbox.Evaluate.{rule_policy, evaluate_rules}
use ad_agent.Sandbox.Evaluate.Limits.{Moves, evaluate_rules-Moves}
use ad_agent.Ads.Metrics.{zero_metrics}
use ad_agent.Sandbox.Settle.{Books}
use ad_agent.Scenarios.Numbers.{Whole, pos, whole_decimal}
use ad_agent.Scenarios.World.{text_digests, with_budget}

abbrev pub spring_group : Entity Whole
spring_group = record (with_budget 5) { id = "group"; level = ad_group; parent_id = "spring" }

abbrev pub two_levels : List (String × Entity Whole)
two_levels = ("spring", with_budget 10) ∷ ("group", spring_group) ∷ []

abbrev pub plain_calendar : Calendar Whole
plain_calendar = record {
  day = λ t. "2026-01-31";
  day_before = λ t n. "2026-01-31";
  stamp = λ t. "2026-01-31T00:00:00Z";
  of_int64 = pos;
}

-- A rule that pauses the ad group while its spend is below 100.
abbrev pub pausing_rule : RuleState Whole
pausing_rule = record {
  entities = two_levels;
  rule_definitions =
      (
        "r",
        record {
          name = "Pause";
          target_level = ad_group;
          target_ids = "group" ∷ [];
          conditions =
              record { metric = "SPEND"; operator = "LT"; value = pos 100; window = "TODAY" } ∷ [];
          action = "PAUSE";
          action_value = none;
          schedule = "EVERY_30_MINUTES";
        },
      )
      ∷ [];
  rule_status = ("r", "ENABLED") ∷ [];
  rule_evaluated_at = [];
  rule_results = [];
  budget_policy = none;
  rows = [];
  hour_facts = [];
}

evaluate_rules-Moves_example :
    Moves
      (rule_policy none)
      (seen "group" two_levels)
      (seen "group" (evaluate_rules plain_calendar 1800 pausing_rule).entities)
evaluate_rules-Moves_example = evaluate_rules-Moves plain_calendar 1800 pausing_rule "group"

same_entity : {a b : Entity Whole} → some a ≡ some b → a ≡ b
same_entity h = cc h

one_of_two :
    (k : String) (e : Entity Whole)
    → seen k two_levels ≡ some e
    → (e ≡ with_budget 10) ⊎ (e ≡ spring_group)
unfolding seen
one_of_two k e h = elim (Bool-cases ("spring" == k)) [
  | inl first ↦
      let hit : some (with_budget 10) ≡ some e = rw first at h in inl (sym (same_entity hit))
  | inr other ↦ elim (Bool-cases ("group" == k)) [
    | inl second ↦
        let hit : some spring_group ≡ some e = rw (other, second) at h in
        inr (sym (same_entity hit))
    | inr gone ↦ let miss : none ≡ some e = rw (other, gone) at h in cc miss
  ]
]

below :
    (e q : Entity Whole)
    → (e ≡ with_budget 10) ⊎ (e ≡ spring_group)
    → seen e.parent_id two_levels ≡ some q
    → depth q.level < depth e.level
unfolding seen
below e q (inl top) h =
    let miss : none ≡ some q = subst (λ x. seen x.parent_id two_levels ≡ some q) top h in cc miss
below e q (inr group) h =
    let hit : some (with_budget 10) ≡ some q =
      subst (λ x. seen x.parent_id two_levels ≡ some q) group h in
    let found : q ≡ with_budget 10 = sym (same_entity hit) in rw (found, group) (omega arith)

two_levels-Levelled : Levelled two_levels
two_levels-Levelled = record { deeper = λ k e q at parent. below e q (one_of_two k e at) parent }

group_seen : seen "group" two_levels ≡ some spring_group
unfolding seen
group_seen = refl

climb-enough_example : Climbed two_levels spring_group campaign
climb-enough_example =
    climb-enough two_levels two_levels-Levelled "group" spring_group campaign group_seen

abbrev pub shop_books : Books Whole
shop_books = record {
  account_id = "shop";
  account_currency = "USD";
  balance = record {
    account_id = "shop";
    currency = "USD";
    available = pos 100;
    cash = pos 90;
    voucher = pos 10;
    as_of = 0;
  };
  transactions = [];
}

abbrev one_fact : List (HourFact Whole)
one_fact =
    record {
      ad_id = "group";
      hour = 0;
      model_version = "";
      metrics = record zero_metrics { spend = pos 7 };
      true_metrics = zero_metrics;
      report_available_at = 0;
    }
    ∷ []
