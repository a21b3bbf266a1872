-- ===== src/Ads/Comparison.antt =====
-- internal/ads/comparison.go: Compare.
pub mod Merged
use ad_agent.Prelude.{
  ℕ, ◌-◌, String, ◌==◌, Bool, true, false, not, ◌&&◌, ◌||◌, Option, none, some, List, [], ◌∷◌, ◌++◌,
  map, eqb, ltb, is_some, if◌then◌else◌,
}
use ad_agent.Prelude.Result.{Result, Check, ok, err, ◌>>=◌, ◌>>◌, refuse}
use ad_agent.Prelude.Sorting.{sort}
use ad_agent.Ads.Decimal.{Decimal}
use ad_agent.Ads.Types.{Source, same_source, same_level}
use ad_agent.Ads.Dates.{parse_date}
use ad_agent.Ads.Metrics.{Metrics, zero_metrics, ratio}
use ad_agent.Ads.Report.{ReportQuery, required_date, validate_query, Report}
use ad_agent.Ads.Analysis.{text_less, Finding, Calculation, analyze}

pub record Contribution (D : Type 0) : Type 0 where
  pub entity_id : String
  pub previous : Metrics D
  pub current : Metrics D
  pub roas_points : Option D

pub record Comparison (D : Type 0) : Type 0 where
  pub source : Source
  pub current_query : ReportQuery
  pub previous_query : ReportQuery
  pub currency : String
  pub timezone : String
  pub attribution : String
  pub id : String
  pub current_report_id : String
  pub previous_report_id : String
  pub previous : Metrics D
  pub current : Metrics D
  pub previous_roas : Option D
  pub current_roas : Option D
  pub delta_roas : Option D
  pub contributions : List (Contribution D)
  pub method : String
  pub limitations : List String

abbrev pub comparison_method : String
comparison_method =
    "Entity contribution = current entity revenue / current total spend - previous entity revenue / previous total spend. Contributions sum to total ROAS change; includes mix and spend-denominator effects, not causal attribution."

-- The windows are of one length, and the previous one ends before the current one starts. Both
-- queries have passed their check, so that all four dates are dates and no window ends before it
-- starts; where a date is none, Go's zero time stands for it.
abbrev pub date_or_zero : String → ℕ
date_or_zero s = elim (parse_date s) [ none ↦ 366 | some d ↦ d ]

unfoldable pub windows_match : ReportQuery → ReportQuery → Bool
windows_match p c =
    let pe = date_or_zero p.end_date in
    let cs = date_or_zero c.start_date in
    eqb (pe - date_or_zero p.start_date) (date_or_zero c.end_date - cs) && ltb pe cs

module _ {D : Type 0} ⦃dec : Decimal D⦄ where
  abbrev pub difference : Option D → Option D → Option D
  difference (some a) (some b) = some (dec.minus a b)
  difference _ _ = none

  unfoldable pub same_semantics : Report D → Report D → Bool
  unfolding same_source same_level
  same_semantics p c =
      same_source p.source c.source
      && p.currency == c.currency
      && p.timezone == c.timezone
      && p.attribution == c.attribution
      && same_level p.query.level c.query.level
      && p.query.entity_id == c.query.entity_id

  abbrev pub of_previous : Finding D → Contribution D
  of_previous f = record {
    entity_id = f.entity_id;
    previous = f.metrics;
    current = zero_metrics;
    roas_points = none;
  }

  -- groups[id] with the current metrics, which begins a contribution for a new entity
  unfoldable pub set_current : Finding D → List (Contribution D) → List (Contribution D)
  set_current f [] =
      record {
        entity_id = f.entity_id;
        previous = zero_metrics;
        current = f.metrics;
        roas_points = none;
      }
      ∷ []
  set_current f (c ∷ groups) =
      let rest = set_current f groups in
      if c.entity_id == f.entity_id then record c { current = f.metrics } ∷ groups else c ∷ rest

  unfoldable pub merged : List (Finding D) → List (Contribution D) → List (Contribution D)
  unfolding set_current
  merged [] groups = groups
  merged (f ∷ fs) groups = merged fs (set_current f groups)

  abbrev pub points : Bool → D → D → Contribution D → Contribution D
  points both previous_spend current_spend v =
      if both
      then record v {
        roas_points =
            difference (ratio v.current.revenue current_spend)
              (ratio v.previous.revenue previous_spend);
      }
      else v

  abbrev pub by_entity : Contribution D → Contribution D → Bool
  by_entity a b = text_less a.entity_id b.entity_id

  -- Compare
  unfoldable pub compare_reports : Report D → Report D → Result (Comparison D)
  unfolding same_semantics validate_query windows_match merged
  compare_reports previous current = do
    refuse (not previous.complete || not current.complete) "comparison_requires_complete_reports"
    refuse (not (same_semantics previous current)) "incompatible_report_semantics"
    validate_query previous.query
    validate_query current.query
    refuse (not (windows_match previous.query current.query))
        "comparison_requires_equal_nonoverlapping_windows"
    p ← analyze previous
    c ← analyze current
    let delta = difference c.return_on_spend p.return_on_spend
    let groups = merged c.ranking (map of_previous p.ranking)
    ok (record {
      source = current.source;
      current_query = current.query;
      previous_query = previous.query;
      currency = current.currency;
      timezone = current.timezone;
      attribution = current.attribution;
      id = "";
      current_report_id = current.id;
      previous_report_id = previous.id;
      previous = p.totals;
      current = c.totals;
      previous_roas = p.return_on_spend;
      current_roas = c.return_on_spend;
      delta_roas = delta;
      contributions =
          sort by_entity (map (points (is_some delta) p.totals.spend c.totals.spend) groups);
      method = comparison_method;
      limitations = previous.limitations ++ current.limitations;
    })
