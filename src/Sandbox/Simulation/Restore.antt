-- ===== src/Sandbox/Simulation/Restore.antt =====
-- internal/sandbox/simulation.go: RestoreSimulation, which checks a saved clock and saved facts.
pub mod Restored
use Prim.Native.String
use ad_agent.Prelude.{
  ℕ, ◌%◌, ◌^◌, String, ◌==◌, Bool, false, not, ◌&&◌, ◌||◌, Option, none, some, List, [], ◌∷◌, ◌++◌,
  ltb, leb, eqb, if◌then◌else◌,
}
use ad_agent.Prelude.Result.{Result, Check, ok, err, ◌>>=◌, ◌>>◌, refuse}
use ad_agent.Prelude.Sorting.{sort}
use ad_agent.Ads.Decimal.{Decimal, equal, greater_than, is_negative}
use ad_agent.Ads.Types.{ad, same_level, Entity}
use ad_agent.Ads.Metrics.{Metrics}
use ad_agent.Ads.Analysis.{text_less}
use ad_agent.Store.Session.{seen}
use ad_agent.Sandbox.Rules.{Calendar, HourFact}
use ad_agent.Sandbox.Backend.{Backend}
use ad_agent.Sandbox.Simulation.{
  causal_model_version, hour_length, Delivery, Simulated, SimulationState, has_text, with_facts,
  with_latest_date,
}

-- An int64 that is not negative.
abbrev pub natural64 : ℕ → Bool
natural64 n = ltb n (2 ^ 63)

abbrev pub less_or_equal : {D : Type 0} ⦃dec : Decimal D⦄ → D → D → Bool
less_or_equal a b = not (greater_than a b)

module _ {D : Type 0} ⦃dec : Decimal D⦄ where
  is_amount : Option D → Bool
  is_amount none = false
  is_amount (some v) = not (is_negative v)

  unfoldable pub sound_metrics : Metrics D → Bool
  unfolding is_amount
  sound_metrics m =
      not (is_negative m.spend)
      && natural64 m.impressions
      && natural64 m.clicks
      && leb m.clicks m.impressions
      && is_amount m.conversions
      && is_amount m.revenue

  at_most : Option D → Option D → Bool
  at_most (some a) (some b) = less_or_equal a b
  at_most _ _ = false

  -- validCausalMetrics
  unfoldable pub valid_causal_metrics : HourFact D → Bool
  unfolding sound_metrics at_most
  valid_causal_metrics x =
      not (ltb x.report_available_at x.hour)
      && sound_metrics x.true_metrics
      && eqb x.metrics.impressions x.true_metrics.impressions
      && eqb x.metrics.clicks x.true_metrics.clicks
      && equal x.metrics.spend x.true_metrics.spend
      && at_most x.metrics.conversions x.true_metrics.conversions
      && at_most x.metrics.revenue x.true_metrics.revenue

  abbrev is_ad : Option (Entity D) → Bool
  is_ad none = false
  is_ad (some e) = same_level e.level ad

  -- Backend.validHourFact
  unfoldable pub valid_hour_fact : Backend D → HourFact D → Bool
  unfolding sound_metrics valid_causal_metrics
  valid_hour_fact b x =
      is_ad (seen x.ad_id b.rules.entities)
      && ltb b.simulation_start x.hour
      && not (ltb b.clock x.hour)
      && eqb (x.hour % hour_length) 0
      && sound_metrics x.metrics
      && x.model_version == causal_model_version
      && valid_causal_metrics x

module _ {D : Type 0} ⦃dec : Decimal D⦄ (cal : Calendar D) where
  -- Backend.visibleFactMetrics
  unfoldable pub visible_fact_metrics : ℕ → HourFact D → Metrics D
  visible_fact_metrics clock x =
      if not (ltb clock x.report_available_at)
      then x.metrics
      else record x.metrics { conversions = some (dec.of_int 0); revenue = some (dec.of_int 0) }

  abbrev pub fact_key : HourFact D → String
  fact_key x = String.◌++◌ x.ad_id (String.◌++◌ "/" (cal.stamp x.hour))

  -- The loop over the facts of RestoreSimulation: what it has appended, and whether it has failed.
  unfoldable pub append_facts :
      Backend D → List String → List (HourFact D) → List (HourFact D) → Check × List (HourFact D)
  append_facts b known done [] = (ok tt, done)
  append_facts b known done (x ∷ facts) =
      let rest = append_facts b (fact_key x ∷ known) (done ++ x ∷ []) facts in
      if not (valid_hour_fact b x)
      then (err "invalid sandbox hour fact", done)
      else if has_text (fact_key x) known
      then (err "duplicate sandbox hour fact", done)
      else rest

  -- By hour, then by ad.
  unfoldable pub earlier : HourFact D → HourFact D → Bool
  earlier a b = if eqb a.hour b.hour then text_less a.ad_id b.ad_id else ltb a.hour b.hour

  module _ {G : Type 0} (delivery : Delivery D G) where
    pub restored_model : Option G → Result G
    restored_model none = err "unsupported sandbox simulation schema"
    restored_model (some g) = do
      refuse (not (delivery.version g == causal_model_version))
          "unsupported sandbox simulation schema"
      delivery.validate g
      ok g

    pub restored_state : Option (SimulationState G) → Simulated D G → Result (Simulated D G)
    unfolding restored_model
    restored_state none s = ok s
    restored_state (some p) s = do
      refuse
          (not (p.environment == s.backend.environment)
            || not (p.account_id == s.backend.account.id)
            || not (p.granularity == "hour")
            || ltb p.current_time s.backend.clock)
          "invalid sandbox simulation state"
      g ← restored_model p.model
      ok (record { backend = record s.backend { clock = p.current_time }; model = g })

    pub restored_facts : Simulated D G → Check × List (HourFact D) → Check × Simulated D G
    restored_facts s (err e, facts) = (err e, record s { backend = with_facts cal facts s.backend })
    restored_facts s (ok u, facts) = (
      ok tt,
      record s { backend = with_latest_date cal (with_facts cal (sort earlier facts) s.backend) },
    )

    -- Backend.RestoreSimulation: an error leaves what has been set by then.
    unfoldable pub restore_simulation :
        Option (SimulationState G) → List (HourFact D) → Simulated D G → Check × Simulated D G
    unfolding restored_state restored_facts append_facts
    restore_simulation p facts s = elim (restored_state p s) [
      | err e ↦ (err e, s)
      | ok t ↦ restored_facts t (append_facts t.backend [] t.backend.rules.hour_facts facts)
    ]
