-- ===== src/Scenarios/Shop.antt =====
-- A session that stages a budget of 12 for a campaign of 10.
use ad_agent.Prelude.{List, [], ◌∷◌, true, false}
use ad_agent.Ads.Change.{budget_change}
use ad_agent.Ads.Change.Policy.{sandbox_policy}
use ad_agent.Store.Session.{ModelSelection, Session}
use ad_agent.Service.Platform.{Env}
use ad_agent.Service.Limits.{Service}
use ad_agent.Service.Requests.{Request, to_stage, to_apply, to_reconcile, to_discard, serve_all}
use ad_agent.Service.Requests.Once.{new_env}
use ad_agent.Scenarios.Numbers.{Whole, whole_decimal}
use ad_agent.Scenarios.World.{
  World, shop_source, with_budget, text_digests, one_campaign, plain_formats,
}

abbrev pub any_model : ModelSelection
any_model = record {
  provider = "anthropic";
  model = "m";
  reasoning = "";
  auth_mode = "api_key";
  api = "";
  base_url = "";
  api_key_env = "";
  context_window = 0;
  max_output_tokens = 0;
}

abbrev pub shop_session : Session Whole
shop_session = record {
  id = "s";
  source = shop_source;
  messages = [];
  provenance = ("spring", record { entity = with_budget 10; at = 100 }) ∷ [];
  model = any_model;
  runtime = "claude";
  checkpoint = "";
  execution_contract = "";
}

abbrev pub shop_service : Service Whole
shop_service = record {
  has_writer = true;
  has_creator = false;
  has_planner = false;
  has_operator = false;
  policy = sandbox_policy;
}

abbrev pub first_world : World
first_world = record { clock = 100; drawn = ""; lossy = false; target = with_budget 10 }

abbrev pub lossy_world : World
lossy_world = record first_world { lossy = true }

abbrev pub stage_request : Request Whole
stage_request = to_stage shop_session (with_budget 10) (with_budget 12) budget_change "more sales"

-- The change is staged, approved, approved again, reconciled and discarded.
abbrev pub all_requests : List (Service Whole × Request Whole)
all_requests =
    (shop_service, stage_request)
    ∷ (shop_service, to_apply "s" "change_" "operator")
    ∷ (shop_service, to_apply "s" "change_" "operator")
    ∷ (shop_service, to_reconcile "s" "change_")
    ∷ (shop_service, to_discard "s" "change_")
    ∷ []

-- The state with the staged change.
abbrev pub staged_env : Env Whole World
staged_env = serve_all plain_formats ((shop_service, stage_request) ∷ []) (new_env first_world)

-- The state with the change whose write went unanswered.
abbrev pub unknown_env : Env Whole World
unknown_env =
    serve_all plain_formats
      ((shop_service, stage_request) ∷ (shop_service, to_apply "s" "change_" "operator") ∷ [])
      (new_env lossy_world)
