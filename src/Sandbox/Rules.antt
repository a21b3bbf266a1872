-- ===== src/Sandbox/Rules.antt =====
-- internal/sandbox/rules.go: the automated rules of the sandbox, run at a time on what is reported by
-- then. Maps are association lists; the calendar of the account's time zone is a parameter.
pub mod Climb
use ad_agent.Prelude.{
  ℕ, zero, suc, ◌+◌, ◌-◌, String, ◌==◌, Bool, true, false, not, ◌&&◌, ◌||◌, Option, none, some,
  List, [], ◌∷◌, ◌++◌, map, all, ltb, leb, is_some, if◌then◌else◌,
}
use Prim.Native.String
use ad_agent.Prelude.Result.{Check, ok, err}
use ad_agent.Prelude.Sorting.{sort}
use ad_agent.Ads.Decimal.{Decimal, equal, less_than, greater_than, is_positive}
use ad_agent.Ads.Types.{Level, campaign, ad_group, ad, same_level, Entity}
use ad_agent.Ads.Operations.{RuleCondition, AutomatedRuleCreateSpec}
use ad_agent.Ads.Change.{budget_change, Digests}
use ad_agent.Ads.Change.Policy.{Policy, sandbox_policy, validate_change}
use ad_agent.Ads.Metrics.{Metrics, zero_metrics, add, positive64}
use ad_agent.Ads.Report.{Row}
use ad_agent.Ads.Analysis.{text_less}
use ad_agent.Store.Session.{seen}

-- Days in the account's time zone, the day some days earlier, RFC 3339 in UTC, and the decimal of an
-- int64.
pub record Calendar (D : Type 0) : Type 0 where
  pub day : ℕ → String
  pub day_before : ℕ → ℕ → String
  pub stamp : ℕ → String
  pub of_int64 : ℕ → D

-- A fact, without the attribution and the trace that only the delivery model reads.
pub record HourFact (D : Type 0) : Type 0 where
  pub ad_id : String
  pub hour : ℕ
  pub model_version : String
  pub metrics : Metrics D
  pub true_metrics : Metrics D
  pub report_available_at : ℕ

pub record RuleResult : Type 0 where
  pub id : String
  pub rule_id : String
  pub executed_at : ℕ
  pub status : String
  pub affected_count : ℕ

-- The fields of Backend that the rules read and write.
pub record RuleState (D : Type 0) : Type 0 where
  pub entities : List (String × Entity D)
  pub rule_definitions : List (String × AutomatedRuleCreateSpec D)
  pub rule_status : List (String × String)
  pub rule_evaluated_at : List (String × ℕ)
  pub rule_results : List RuleResult
  pub budget_policy : Option (Policy D)
  pub rows : List (Row D)
  pub hour_facts : List (HourFact D)

-- SetBudgetPolicy
unfoldable pub set_budget_policy : {D : Type 0} → Policy D → RuleState D → RuleState D
set_budget_policy p st = record st { budget_policy = some p }

-- m[k] = v
unfoldable pub put : {V : Type 0} → String → V → List (String × V) → List (String × V)
put k v [] = (k, v) ∷ []
put k v ((j, w) ∷ m) = let rest = put k v m in if j == k then (k, v) ∷ m else (j, w) ∷ rest

abbrev pub depth : Level → ℕ
depth campaign = 1
depth ad_group = 2
depth ad = 3
depth _ = 0

module _ {D : Type 0} where
  -- The loop of `matches`, on fuel: up the parents to the level. `none` is a loop that is not over
  -- when the fuel is, `some none` one that has come to a parent that is not there.
  unfoldable pub climb :
      ℕ → List (String × Entity D) → Entity D → Level → Option (Option (Entity D))
  climb zero es e level = none
  climb (suc n) es e level =
      if same_level e.level level
      then some (some e)
      else elim (seen e.parent_id es) [ none ↦ some none | some p ↦ climb n es p level ]

  abbrev pub is_named : String → Option (Entity D) → Bool
  is_named id none = false
  is_named id (some e) = e.id == id

  -- `matches`: a parent lies at a smaller depth, so that the depth is fuel enough.
  unfoldable pub matches : List (String × Entity D) → Entity D → String → Bool
  matches es target id = elim (seen id es) [
    | none ↦ false
    | some e ↦ elim (climb (suc (depth e.level)) es e target.level) [
      | none ↦ false
      | some found ↦ is_named target.id found
    ]
  ]

module _ {D : Type 0} ⦃dec : Decimal D⦄ (cal : Calendar D) where
  abbrev pub window_days : String → ℕ
  window_days window =
      if window == "LAST_7_DAYS" then 7 else if window == "LAST_3_DAYS" then 3 else 1

  abbrev in_days : String → String → String → Bool
  in_days start end day = not (text_less day start) && not (text_less end day)

  unfoldable pub row_total :
      List (String × Entity D) → Entity D → String → String → Metrics D → List (Row D) → Metrics D
  unfolding matches
  row_total es target start end total [] = total
  row_total es target start end total (r ∷ rows) =
      row_total es target start end
        (if in_days start end r.date && matches es target r.entity_id
          then add total r.metrics
          else total)
        rows

  -- Conversions and revenue that are not reported by then count as zero.
  abbrev pub reported : ℕ → HourFact D → Metrics D
  reported at fact =
      if ltb at fact.report_available_at
      then record fact.metrics { conversions = some (dec.of_int 0); revenue = some (dec.of_int 0) }
      else fact.metrics

  unfoldable pub fact_total :
      List (String × Entity D)
      → Entity D
      → String
      → String
      → ℕ
      → Metrics D
      → List (HourFact D)
      → Metrics D
  unfolding matches
  fact_total es target start end at total [] = total
  fact_total es target start end at total (x ∷ facts) =
      fact_total es target start end at
        (if in_days start end (cal.day x.hour) && leb x.hour at && matches es target x.ad_id
          then add total (reported at x)
          else total)
        facts

  -- ruleMetrics
  unfoldable pub rule_metrics :
      List (Row D)
      → List (HourFact D)
      → List (String × Entity D)
      → Entity D
      → String
      → ℕ
      → Metrics D
  unfolding row_total fact_total
  rule_metrics rows facts es target window at =
      let start = cal.day_before at (window_days window - 1) in
      let end = cal.day at in
      fact_total es target start end at (row_total es target start end zero_metrics rows) facts

  abbrev per_conversion : D → Option D → Option D
  per_conversion spend none = none
  per_conversion spend (some n) = if is_positive n then some (dec.over spend n) else none

  -- ruleMetricValue: none where the metric is not available.
  unfoldable pub rule_metric_value : Metrics D → String → Option D
  rule_metric_value m name =
      if name == "SPEND"
      then some m.spend
      else if name == "CONVERSIONS"
      then m.conversions
      else if name == "CPA"
      then per_conversion m.spend m.conversions
      else if name == "CTR" && positive64 m.impressions
      then some (
          dec.times (dec.over (cal.of_int64 m.clicks) (cal.of_int64 m.impressions))
            (dec.of_int 100))
      else none

  abbrev pub holds : String → D → Option D → Bool
  holds operator bound none = false
  holds operator bound (some v) =
      operator == "GT" && greater_than v bound || operator == "LT" && less_than v bound

  abbrev pub condition_holds : Metrics D → RuleCondition D → Bool
  condition_holds m c = holds c.operator c.value (rule_metric_value m c.metric)
