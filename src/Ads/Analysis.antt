-- ===== src/Ads/Analysis.antt =====
-- internal/ads/analysis.go: Analyze. The map of the groups is an association list; Go's iteration
-- order is not specified, and the sort makes it irrelevant.
pub mod Groups
pub mod Ranking
use ad_agent.Prelude.{
  ℕ, String, ◌==◌, Bool, true, false, not, ◌&&◌, ◌||◌, Option, none, some, List, [], ◌∷◌, ◌++◌, map,
  eqb, if◌then◌else◌, Ordering,
}
use Prim.Native.String
use ad_agent.Prelude.Result.{Result, ok, ◌>>◌, refuse}
use ad_agent.Prelude.Sorting.{sort}
use ad_agent.Ads.Decimal.{Decimal, equal, less_than}
use ad_agent.Ads.Types.{Source}
use ad_agent.Ads.Metrics.{Metrics, zero_metrics, add, ratio, roas}
use ad_agent.Ads.Report.{Row, ReportQuery, Report}

-- `<` on texts.
abbrev pub text_less : String → String → Bool
text_less a b = elim (String.compare a b) [ Ordering.lt ↦ true | _ ↦ false ]

pub record Finding (D : Type 0) : Type 0 where
  pub entity_id : String
  pub metrics : Metrics D
  pub return_on_spend : Option D
  pub spend_share : Option D

pub record Calculation (D : Type 0) : Type 0 where
  pub source : Source
  pub query : ReportQuery
  pub currency : String
  pub timezone : String
  pub attribution : String
  pub id : String
  pub report_id : String
  pub method : String
  pub totals : Metrics D
  pub return_on_spend : Option D
  pub ranking : List (Finding D)
  pub limitations : List String

abbrev pub analysis_method : String
analysis_method =
    "Sum additive metrics per entity; ROAS=sum(revenue)/sum(spend); rank ascending with unavailable ratios last. Correlation is not causation."

module _ {D : Type 0} ⦃dec : Decimal D⦄ where
  -- equalNullable
  unfoldable pub equal_nullable : Option D → Option D → Bool
  equal_nullable none none = true
  equal_nullable (some a) (some b) = equal a b
  equal_nullable _ _ = false

  -- groups[id], with the zero metrics of a missing key
  unfoldable pub group_of : String → List (String × Metrics D) → Option (Metrics D)
  group_of k [] = none
  group_of k ((id, m) ∷ groups) = if id == k then some m else group_of k groups

  unfoldable pub add_to_group : Row D → List (String × Metrics D) → List (String × Metrics D)
  add_to_group r [] = (r.entity_id, add zero_metrics r.metrics) ∷ []
  add_to_group r ((id, m) ∷ groups) =
      let rest = add_to_group r groups in
      if id == r.entity_id then (id, add m r.metrics) ∷ groups else (id, m) ∷ rest

  -- The loop over the rows: the sum of all, and the groups.
  unfoldable pub summed :
      List (Row D) → Metrics D → List (String × Metrics D) → Metrics D × List (String × Metrics D)
  unfolding add_to_group
  summed [] actual groups = (actual, groups)
  summed (r ∷ rows) actual groups = summed rows (add actual r.metrics) (add_to_group r groups)

  unfoldable pub totals_match : Metrics D → Metrics D → Bool
  unfolding equal_nullable
  totals_match actual totals =
      equal actual.spend totals.spend
      && eqb actual.impressions totals.impressions
      && eqb actual.clicks totals.clicks
      && equal_nullable actual.revenue totals.revenue
      && equal_nullable actual.conversions totals.conversions

  -- The test of the sort: by the return, the missing ones last, and by the entity.
  unfoldable pub ranks_before : Finding D → Finding D → Bool
  ranks_before a b = by_return a.return_on_spend b.return_on_spend a.entity_id b.entity_id
    where
      by_return : Option D → Option D → String → String → Bool
      by_return none none i j = text_less i j
      by_return none (some y) i j = false
      by_return (some x) none i j = true
      by_return (some x) (some y) i j = if equal x y then text_less i j else less_than x y

  abbrev pub finding_of : D → String × Metrics D → Finding D
  finding_of spend (id, m) = record {
    entity_id = id;
    metrics = m;
    return_on_spend = roas m;
    spend_share = ratio (some m.spend) spend;
  }

  abbrev pub missing_roas : Option D → List String
  missing_roas none = "ROAS unavailable: missing revenue or zero spend" ∷ []
  missing_roas (some r) = []

  -- Analyze
  unfoldable pub analyze : Report D → Result (Calculation D)
  unfolding summed totals_match ranks_before
  analyze r = do
    refuse (not r.complete) "incomplete report cannot establish an account-wide ranking"
    let (actual, groups) = summed r.rows zero_metrics []
    refuse (not (totals_match actual r.totals)) "report_totals_do_not_match_rows"
    ok (record {
      source = r.source;
      query = r.query;
      currency = r.currency;
      timezone = r.timezone;
      attribution = r.attribution;
      id = "";
      report_id = r.id;
      method = analysis_method;
      totals = r.totals;
      return_on_spend = roas r.totals;
      ranking = sort ranks_before (map (finding_of r.totals.spend) groups);
      limitations = r.limitations ++ missing_roas (roas r.totals);
    })
