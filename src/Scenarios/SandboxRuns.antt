-- ===== src/Scenarios/SandboxRuns.antt =====
-- The theorems on the sandbox's backend and its clock, at small accounts.
use ad_agent.Prelude.{String, ◌≡◌, refl, Bool, true, false, Option, some, List, [], ◌∷◌}
use ad_agent.Prelude.Result.{ok}
use ad_agent.Ads.Types.{Level, campaign, Entity, EntityQuery, CreateRequest}
use ad_agent.Ads.Metrics.{zero_metrics}
use ad_agent.Store.Session.{seen}
use ad_agent.Sandbox.Rules.Climb.{Climbed}
use ad_agent.Sandbox.Backend.{Backend, list}
use ad_agent.Sandbox.Backend.Kept.{IsSound}
use ad_agent.Sandbox.Backend.Runs.{
  BackendCall, creates, evaluates, run_backend, run_backend-IsSound,
}
use ad_agent.Sandbox.Backend.Listed.{exchange, list-Reordered}
use ad_agent.Sandbox.Simulation.{Delivery, Simulated, advance}
use ad_agent.Sandbox.Simulation.Later.{GivesHour}
use ad_agent.Sandbox.Simulation.Advanced.{Advanced, advance-Advanced}
use ad_agent.Scenarios.Numbers.{Whole, pos, whole_decimal}
use ad_agent.Scenarios.World.{shop_account, with_budget, text_digests}
use ad_agent.Scenarios.RuleRuns.{spring_group, two_levels, plain_calendar, pausing_rule, shop_books}

abbrev pub shop_backend : List (String × Entity Whole) → Backend Whole
shop_backend es = record {
  environment = "demo";
  account = shop_account;
  clock = 0;
  simulation_start = 0;
  rules = record pausing_rule { entities = es };
  books = shop_books;
}

abbrev new_campaign : CreateRequest Whole
new_campaign = record {
  level = campaign;
  parent_id = "";
  name = "Summer";
  status = "DISABLE";
  budget = some (pos 10);
  budget_mode = "DAILY";
  objective = "TRAFFIC";
}

abbrev backend_calls : List (BackendCall Whole)
backend_calls = creates false (some "0a") new_campaign ∷ evaluates 1800 ∷ []

empty-IsSound : IsSound (shop_backend [])
unfolding seen
empty-IsSound = record { sound = λ k e h. cc h }

run_backend-IsSound_example :
    IsSound (run_backend plain_calendar backend_calls (shop_backend []))
    × ((k : String) (e : Entity Whole) (level : Level)
        → seen k (run_backend plain_calendar backend_calls (shop_backend [])).rules.entities
          ≡ some e
        → Climbed
            (run_backend plain_calendar backend_calls (shop_backend [])).rules.entities
            e
            level)
unfolding seen
run_backend-IsSound_example =
    run_backend-IsSound plain_calendar backend_calls (shop_backend []) (refl, (tt, tt))
      empty-IsSound

abbrev campaigns : EntityQuery
campaigns = record { level = campaign; parent_id = "" }

abbrev spring_first : List (String × Entity Whole)
spring_first = two_levels

abbrev group_first : List (String × Entity Whole)
group_first = ("group", spring_group) ∷ ("spring", with_budget 10) ∷ []

abbrev by_name : String → Option (Entity Whole)
by_name k = seen k two_levels

list-Reordered_example :
    list false campaigns (shop_backend two_levels) ≡ list false campaigns (shop_backend group_first)
unfolding seen
list-Reordered_example =
    list-Reordered by_name false campaigns (shop_backend two_levels) group_first
      (exchange ("spring", with_budget 10) ("group", spring_group) []) (refl, (refl, tt))

-- A delivery of one fact an hour, which keeps no state.
abbrev pub steady_delivery : Delivery Whole Bool
steady_delivery = record {
  version = λ g. "causal-auction-v1";
  validate = λ g. ok tt;
  generate = λ ads h b g. (
    record {
      ad_id = "ad";
      hour = h;
      model_version = "causal-auction-v1";
      metrics = zero_metrics;
      true_metrics = zero_metrics;
      report_available_at = h;
    }
        ∷ [],
    g,
  );
}

steady-GivesHour : GivesHour plain_calendar steady_delivery
steady-GivesHour = record { hours = λ ads h b g. (refl, tt) }

abbrev shop_simulated : Simulated Whole Bool
shop_simulated = record { backend = shop_backend two_levels; model = true }

advance-Advanced_example :
    Advanced plain_calendar steady_delivery 2 shop_simulated
      (advance plain_calendar steady_delivery false (λ n. false) 2 shop_simulated)
advance-Advanced_example =
    advance-Advanced plain_calendar steady_delivery steady-GivesHour false (λ n. false) 2
      shop_simulated
