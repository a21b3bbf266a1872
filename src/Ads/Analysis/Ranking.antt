-- ===== src/Ads/Analysis/Ranking.antt =====
-- What Analyze returns.
use ad_agent.Prelude.{
  String, ◌≡◌, refl, subst, true, false, not, Option, none, some, List, [], map, arith,
}
use mathlib.Core.List.{Perm}
use ad_agent.Prelude.Flip.{flip, text_compare-flip}
use ad_agent.Prelude.Result.{ok, ok-injective, refuse, bind_parts, refuse_passed}
use ad_agent.Prelude.Sorting.{sort-Perm, InOrder, sort-InOrder}
use ad_agent.Ads.Decimal.{Decimal}
use ad_agent.Ads.Metrics.{Metrics, zero_metrics}
use ad_agent.Ads.Report.{Report}
use ad_agent.Ads.Analysis.{
  Finding, Calculation, group_of, summed, totals_match, ranks_before, finding_of, analyze,
}
use ad_agent.Ads.Analysis.Groups.{
  tally, grand_total, Distinct, summed-Distinct, summed-tally, summed-grand_total,
}

-- The one thing that is asked of decimal.Cmp: it answers -1, 0 or 1, and the opposite the other
-- way round.
pub record CmpFlips (D : Type 0) ⦃dec : Decimal D⦄ : Type 0 where
  pub at : (a b : D) → dec.cmp b a ≡ flip (dec.cmp a b)

module _ {D : Type 0} ⦃dec : Decimal D⦄ where
  -- A calculation that is what its report says.
  pub record Ranked (r : Report D) (c : Calculation D) : Type 0 where
    pub complete : r.complete ≡ true
    pub totals : c.totals ≡ r.totals
    pub checked : totals_match (grand_total zero_metrics r.rows) r.totals ≡ true
    pub groups : List (String × Metrics D)
    pub once : Distinct groups
    pub sums : (k : String) → group_of k groups ≡ tally k none r.rows
    pub ranking : Perm c.ranking (map (finding_of r.totals.spend) groups)
    pub in_order : InOrder ranks_before c.ranking

  ranks_before-asymmetric :
      CmpFlips D → (a b : Finding D) → ranks_before a b ≡ true → ranks_before b a ≡ false
  unfolding ranks_before
  ranks_before-asymmetric flips a b h = by_options a.return_on_spend b.return_on_spend refl refl
    where
      by_options :
          (x y : Option D)
          → a.return_on_spend ≡ x
          → b.return_on_spend ≡ y
          → ranks_before b a ≡ false
      by_options none none p q = ground (arith, p, q, h, text_compare-flip a.entity_id b.entity_id)
      by_options none (some y) p q = ground (arith, p, q, h)
      by_options (some x) none p q = ground (arith, p, q, h)
      by_options (some x) (some y) p q =
          ground (arith, p, q, h, flips.at x y, text_compare-flip a.entity_id b.entity_id)

  -- A calculation that Analyze returns comes from a complete report whose totals are the sums of its
  -- rows; it ranks each entity that has a row exactly once, with the sum of that entity's rows, and
  -- no entity stands just behind one that should come after it.
  pub analyze-Ranked :
      CmpFlips D → (r : Report D) {c : Calculation D} → analyze r ≡ ok c → Ranked r c
  unfolding analyze group_of
  analyze-Ranked flips r {c} h =
      let groups = (summed r.rows zero_metrics []).1 in
      let (u, complete, h₁) = bind_parts (refuse (not r.complete) _) _ h in
      let (v, match, h₂) =
        bind_parts (refuse (not (totals_match (summed r.rows zero_metrics []).0 r.totals)) _) _
          h₁ in
      let same = totals_match (summed r.rows zero_metrics []).0 r.totals in
      let matches : same ≡ true = ground (arith, refuse_passed (not same) _ match) in
      subst (Ranked r) (ok-injective h₂) (record {
        complete = ground (arith, refuse_passed (not r.complete) _ complete);
        totals = refl;
        checked = rw (← summed-grand_total r.rows zero_metrics []) matches;
        groups = groups;
        once = summed-Distinct r.rows zero_metrics [] tt;
        sums = λ k. summed-tally k r.rows zero_metrics [];
        ranking = sort-Perm ranks_before (map (finding_of r.totals.spend) groups);
        in_order = sort-InOrder ranks_before (ranks_before-asymmetric flips) _;
      })
