-- ===== src/Scenarios/RestoreRuns.antt =====
-- The theorem on a saved clock and saved facts, at an account with one ad and one hour.
use ad_agent.Prelude.{◌≡◌, refl, Bool, true, false, Option, some, [], ◌∷◌}
use ad_agent.Prelude.Sorting.{insert, sort}
use ad_agent.Prelude.Result.{ok}
use ad_agent.Ads.Types.{ad, same_level, Entity}
use ad_agent.Ads.Metrics.{zero_metrics}
use ad_agent.Store.Session.{seen}
use ad_agent.Sandbox.Rules.{HourFact}
use ad_agent.Sandbox.Simulation.{
  Simulated, SimulationState, hour_length, with_facts, with_latest_date,
}
use ad_agent.Sandbox.Simulation.Restore.{
  sound_metrics, valid_causal_metrics, valid_hour_fact, append_facts, restore_simulation,
}
use ad_agent.Sandbox.Simulation.Restore.Restored.{Restored, restore_simulation-Restored}
use ad_agent.Scenarios.Numbers.{Whole, whole_decimal}
use ad_agent.Scenarios.RuleRuns.{spring_group, two_levels, plain_calendar}
use ad_agent.Scenarios.SandboxRuns.{shop_backend, steady_delivery}

abbrev spring_ad : Entity Whole
spring_ad = record spring_group { id = "ad"; level = ad; parent_id = "group"; budget = Option.none }

abbrev saved_fact : HourFact Whole
saved_fact = record {
  ad_id = "ad";
  hour = hour_length;
  model_version = "causal-auction-v1";
  metrics = zero_metrics;
  true_metrics = zero_metrics;
  report_available_at = hour_length;
}

abbrev saved_state : Option (SimulationState Bool)
saved_state = some (record {
  environment = "demo";
  account_id = "shop";
  current_time = hour_length;
  granularity = "hour";
  model = some false;
})

abbrev fresh_account : Simulated Whole Bool
fresh_account = record { backend = shop_backend (("ad", spring_ad) ∷ two_levels); model = true }

abbrev restored_account : Simulated Whole Bool
restored_account = record {
  backend = with_latest_date plain_calendar (
      with_facts plain_calendar (saved_fact ∷ [])
        (record fresh_account.backend { clock = hour_length }));
  model = false;
}

fact_restored :
    restore_simulation plain_calendar steady_delivery saved_state (saved_fact ∷ []) fresh_account
    ≡ (ok tt, restored_account)
unfolding restore_simulation append_facts valid_hour_fact valid_causal_metrics sound_metrics seen
    same_level sort insert
fact_restored = refl

restore_simulation-Restored_example :
    Restored plain_calendar (saved_fact ∷ []) fresh_account restored_account
restore_simulation-Restored_example =
    restore_simulation-Restored plain_calendar steady_delivery saved_state (saved_fact ∷ [])
      fresh_account fact_restored
