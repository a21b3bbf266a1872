-- ===== src/Sandbox/Simulation.antt =====
-- internal/sandbox/simulation.go: the clock of a sandbox account and the facts of its hours. Times
-- are numbers of nanoseconds, and Go's zero time lies before all of them: the tests `IsZero` of
-- validHourFact and validCausalMetrics are implied by the comparisons that stand beside them. The
-- delivery model of causal_model.go and joint_delivery.go, which makes the facts of an hour, is a
-- parameter: `G` is its state.
pub mod Restore
pub mod Hours
pub mod Later
pub mod Advanced
use ad_agent.Prelude.{
  ℕ, zero, suc, ◌+◌, ◌-◌, ◌*◌, ◌%◌, ◌^◌, String, ◌==◌, Bool, true, false, not, ◌&&◌, ◌||◌, Option,
  none, some, List, [], ◌∷◌, ◌++◌, map, any, length, ltb, leb, eqb, is_some, if◌then◌else◌,
}
use Prim.Native.String
use ad_agent.Prelude.Result.{Result, Check, ok, err, ◌>>=◌, ◌>>◌, refuse}
use ad_agent.Prelude.Sorting.{sort}
use ad_agent.Ads.Decimal.{Decimal, equal, less_than, greater_than, is_negative}
use ad_agent.Ads.Types.{ad, other_level, same_level, Entity}
use ad_agent.Ads.Change.{Digests}
use ad_agent.Ads.Metrics.{Metrics}
use ad_agent.Ads.Analysis.{text_less}
use ad_agent.Store.Session.{seen}
use ad_agent.Sandbox.Rules.{Calendar, HourFact, RuleState}
use ad_agent.Sandbox.Evaluate.{evaluate_rules}
use ad_agent.Sandbox.Settle.{settle_spend}
use ad_agent.Sandbox.Backend.{Backend, no_entity, by_id, context_error}

abbrev pub max_advance_hours : ℕ
max_advance_hours = 744

abbrev pub max_generated_hours : ℕ
max_generated_hours = 8760

abbrev pub causal_model_version : String
causal_model_version = "causal-auction-v1"

-- time.Hour and 30 * time.Minute
abbrev pub hour_length : ℕ
hour_length = 3_600_000_000_000

abbrev pub half_hour : ℕ
half_hour = 1_800_000_000_000

-- The delivery model: the version of a state, its own validation, and the facts of an hour.
pub record Delivery (D G : Type 0) : Type 0 where
  pub version : G → String
  pub validate : G → Check
  pub generate : List (Entity D) → ℕ → Backend D → G → List (HourFact D) × G

pub record Simulated (D G : Type 0) : Type 0 where
  pub backend : Backend D
  pub model : G

-- The persisted state, as far as RestoreSimulation reads it.
pub record SimulationState (G : Type 0) : Type 0 where
  pub environment : String
  pub account_id : String
  pub current_time : ℕ
  pub granularity : String
  pub model : Option G

pub record AdvanceResult (D : Type 0) : Type 0 where
  pub previous_time : ℕ
  pub advanced_by : ℕ
  pub created : List (HourFact D)

abbrev pub has_text : String → List String → Bool
has_text k ks = any (λ j. j == k) ks

module _ {D : Type 0} ⦃dec : Decimal D⦄ (cal : Calendar D) where
  -- The keys of the map that countGeneratedHours fills.
  unfoldable pub hours_seen : List String → List (HourFact D) → List String
  hours_seen known [] = known
  hours_seen known (x ∷ facts) =
      hours_seen (if has_text (cal.stamp x.hour) known then known else cal.stamp x.hour ∷ known)
        facts

  -- countGeneratedHours
  unfoldable pub count_generated_hours : List (HourFact D) → ℕ
  unfolding hours_seen
  count_generated_hours facts = length (hours_seen [] facts)

  abbrev pub with_facts : List (HourFact D) → Backend D → Backend D
  with_facts facts b = record b { rules = record b.rules { hour_facts = facts } }

  abbrev pub with_latest_date : Backend D → Backend D
  with_latest_date b = record b { account = record b.account { latest_date = cal.day b.clock } }

  module _ {G : Type 0} (delivery : Delivery D G) where
    module _ ⦃dig : Digests D⦄ where
      abbrev pub current_ads : List (String × Entity D) → List (Entity D) → List (Entity D)
      current_ads es ads = map (λ a. elim (seen a.id es) [ none ↦ no_entity | some e ↦ e ]) ads

      abbrev pub run_rules : ℕ → Backend D → Backend D
      run_rules at b = record b { rules = evaluate_rules cal at b.rules }

      -- One hour of Advance: the rules at the half hour, the facts, the clock, the spend, and the
      -- rules at the full hour.
      unfoldable pub one_hour : List (Entity D) → Simulated D G → List (HourFact D) × Simulated D G
      one_hour ads s =
          let hour = s.backend.clock + hour_length in
          let b = run_rules (hour - half_hour) s.backend in
          let (facts, g) = delivery.generate (current_ads b.rules.entities ads) hour b s.model in
          let c = with_facts (b.rules.hour_facts ++ facts) b in
          let d = record c { clock = hour; books = settle_spend cal hour facts c.books } in
          (facts, record { backend = run_rules hour d; model = g })

      -- The loop over the hours. `cancelled n` says whether the context has ended before hour n.
      unfoldable pub advance_loop :
          (ℕ → Bool)
          → ℕ
          → ℕ
          → List (Entity D)
          → List (HourFact D)
          → Simulated D G
          → Result (List (HourFact D)) × Simulated D G
      unfolding one_hour
      advance_loop cancelled zero step ads created s = (ok created, s)
      advance_loop cancelled (suc n) step ads created s =
          let next = one_hour ads s in
          let rest = advance_loop cancelled n (suc step) ads (created ++ next.0) next.1 in
          if cancelled step then (err context_error, s) else rest

      unfoldable pub ads_of : List (String × Entity D) → List (Entity D)
      ads_of [] = []
      ads_of ((k, e) ∷ es) =
          let rest = ads_of es in if same_level e.level ad then e ∷ rest else rest

      unfoldable pub advanced :
          ℕ
          → ℕ
          → Result (List (HourFact D)) × Simulated D G
          → Result (AdvanceResult D) × Simulated D G
      advanced previous hours (err e, s) = (err e, s)
      advanced previous hours (ok created, s) = (
        ok (record { previous_time = previous; advanced_by = hours; created = created }),
        record s { backend = with_latest_date s.backend },
      )

      unfoldable pub refused_advance : Bool → ℕ → Backend D → Check
      unfolding count_generated_hours
      refused_advance ended hours b = do
        refuse (ltb hours 1 || ltb max_advance_hours hours)
            "advance must be between 1 and 744 hours"
        refuse ended context_error
        refuse (ltb max_generated_hours (count_generated_hours b.rules.hour_facts + hours))
            "sandbox environment is limited to 8760 generated hours"
        ok tt

      -- Backend.Advance
      unfoldable pub advance :
          Bool → (ℕ → Bool) → ℕ → Simulated D G → Result (AdvanceResult D) × Simulated D G
      unfolding refused_advance advance_loop ads_of advanced
      advance ended cancelled hours s = elim (refused_advance ended hours s.backend) [
        | err e ↦ (err e, s)
        | ok u ↦
            advanced s.backend.clock hours
              (advance_loop cancelled hours 0 (sort by_id (ads_of s.backend.rules.entities)) [] s)
      ]
