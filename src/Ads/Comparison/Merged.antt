-- ===== src/Ads/Comparison/Merged.antt =====
-- What Compare returns.
use ad_agent.Prelude.{
  ◌-◌, ◌<◌, String, ◌==◌, ◌≡◌, true, Option, none, some, List, [], ◌∷◌, map, if◌then◌else◌, is_some,
}
use mathlib.Core.List.{Perm}
use ad_agent.Prelude.Result.{ok}
use ad_agent.Prelude.Sorting.{InOrder}
use ad_agent.Ads.Decimal.{Decimal}
use ad_agent.Ads.Metrics.{Metrics, zero_metrics}
use ad_agent.Ads.Report.{Report}
use ad_agent.Ads.Report.Window.{Window}
use ad_agent.Ads.Analysis.{Finding, Calculation, analyze}
use ad_agent.Ads.Comparison.{
  Contribution, Comparison, same_semantics, of_previous, points, by_entity, difference,
}

module _ {D : Type 0} ⦃dec : Decimal D⦄ where
  unfoldable pub contribution_of : String → List (Contribution D) → Option (Contribution D)
  contribution_of k [] = none
  contribution_of k (c ∷ cs) = if c.entity_id == k then some c else contribution_of k cs

  -- The metrics of the last finding of an entity, or what there was before.
  unfoldable pub last_of : String → Option (Metrics D) → List (Finding D) → Option (Metrics D)
  last_of k acc [] = acc
  last_of k acc (f ∷ fs) = last_of k (if f.entity_id == k then some f.metrics else acc) fs

  -- The contribution of an entity, given its metrics in the current report, if any.
  abbrev pub with_current :
      String → Option (Contribution D) → Option (Metrics D) → Option (Contribution D)
  with_current k c none = c
  with_current k none (some m) =
      some (record { entity_id = k; previous = zero_metrics; current = m; roas_points = none })
  with_current k (some c) (some m) = some (record c { current = m })

  abbrev over : Option (Metrics D) → Option (Metrics D) → Option (Metrics D)
  over none acc = acc
  over (some m) acc = some m

  -- A comparison that is what its two reports say.
  pub record Compared (p c : Report D) (out : Comparison D) : Type 0 where
    pub semantics : same_semantics p c ≡ true
    pub before : Window p.query
    pub after : Window c.query
    pub equal_length : before.last - before.first ≡ after.last - after.first
    pub disjoint : before.last < after.first
    pub previous : Calculation D
    pub of_p : analyze p ≡ ok previous
    pub current : Calculation D
    pub of_c : analyze c ≡ ok current
    pub delta : out.delta_roas ≡ difference current.return_on_spend previous.return_on_spend
    pub groups : List (Contribution D)
    pub merges :
        (k : String)
        → contribution_of k groups
          ≡ with_current k
              (contribution_of k (map of_previous previous.ranking))
              (last_of k none current.ranking)
    pub listed :
        Perm out.contributions
          (map (points (is_some out.delta_roas) previous.totals.spend current.totals.spend) groups)
    pub in_order : InOrder by_entity out.contributions
