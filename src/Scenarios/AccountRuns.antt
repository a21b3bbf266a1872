-- ===== src/Scenarios/AccountRuns.antt =====
-- The theorems on the TikTok adapter and on the manager's scope, at small inputs.
use ad_agent.Prelude.{◌≤◌, ◌≡◌, refl, Bool, true, false, some, none, List, [], ◌∷◌}
use ad_agent.Prelude.Result.{ok, err}
use ad_agent.Ads.Types.{campaign, WriteRequest}
use ad_agent.Ads.Change.{Change, budget_change, status_change}
use ad_agent.Store.Session.{Session, seen}
use ad_agent.Service.Sending.{sends}
use ad_agent.Service.Stored.{Stored}
use ad_agent.Service.Requests.Once.{new_env, new_env-IsSound}
use ad_agent.Tiktok.Client.{Network, Wire, HttpRequest, replied, call}
use ad_agent.Tiktok.Client.Sends.{Says, call-Says}
use ad_agent.Tiktok.Write.{write}
use ad_agent.Tiktok.Write.Outcome.{Honest, write-Honest}
use ad_agent.Sandbox.Backend.{valid_environment}
use ad_agent.Runtime.Patterns.{all_runes, is_alphanumeric, is_upper, is_digit}
use ad_agent.Service.Exec.{◌>>=◌, pure, reject}
use ad_agent.Service.Platform.{attempt}
use ad_agent.Manager.Scope.{Scope, Binding, new_scope, bind_all, wrong_account}
use ad_agent.Manager.Scope.Requests.{stage_budget, stage_status}
use ad_agent.Manager.Scope.Bound.{IsBound, new_scope-IsBound}
use ad_agent.Manager.Scope.Once.{
  ManagerRequest, wants_budget, approves, manage_all, manage_all-sends,
}
use ad_agent.Manager.Scope.Staged.{IsStagedFor, manager_stages}
use ad_agent.Scenarios.Numbers.{Whole, pos, whole_decimal}
use ad_agent.Scenarios.World.{World, with_budget, text_digests, one_campaign}
use ad_agent.Scenarios.Shop.{shop_session, shop_service, first_world}

-- A network that answers every request with success.
instance abbrev kind_network : Network Whole Bool
kind_network = record {
  resolve = λ advertiser w. (ok "token", w);
  marshals = λ fields. true;
  builds = λ r. true;
  exchange = λ r w. (replied 200 "{}", w);
  has_ended = λ w. (false, w);
  parse_envelope = λ raw. some (record { code = 0; request_id = "r1"; data_text = "" });
}

abbrev quiet_wire : Wire Whole Bool
quiet_wire = record { world = true; requests = [] }

abbrev list_request : HttpRequest Whole
list_request = record {
  method = "GET";
  path = "/open_api/v1.3/campaign/get/";
  query = "";
  body = none;
}

call-Says_example :
    Says 3 list_request quiet_wire (call "shop" (λ answer. true) true list_request quiet_wire)
call-Says_example = call-Says "shop" (λ answer. true) true list_request quiet_wire

abbrev raise_budget : WriteRequest Whole
raise_budget = record {
  target = with_budget 10;
  kind = "budget";
  budget = some (pos 12);
  status = "";
}

write-Honest_example :
    Honest "shop" raise_budget quiet_wire (write "shop" false raise_budget quiet_wire)
write-Honest_example = write-Honest "shop" false raise_budget quiet_wire

abbrev shop_binding : Binding Whole World
shop_binding = record {
  platform = one_campaign;
  service = shop_service;
  list = λ q w. (ok [], w);
  report = λ q w. (err "unsupported", w);
}

abbrev shop_scope : Scope Whole World
shop_scope = record { id = "group"; name = "Group"; bindings = ("shop", shop_binding) ∷ [] }

abbrev manager_session : Session Whole
manager_session = record shop_session {
  provenance = ("shop/campaign/spring", record { entity = with_budget 10; at = 100 }) ∷ [];
}

abbrev manager_requests : List (Scope Whole World × ManagerRequest Whole)
manager_requests =
    (shop_scope, wants_budget manager_session "shop" campaign "spring" (pos 12) "USD" "more sales")
    ∷ (shop_scope, approves "s" "change_" "operator")
    ∷ (shop_scope, approves "s" "change_" "operator")
    ∷ []

manage_all-sends_example :
    sends "change_" (manage_all one_campaign manager_requests (new_env first_world)).sent ≤ 1
manage_all-sends_example = manage_all-sends one_campaign manager_requests first_world "change_"

manager_stages_example :
    ((c : Change Whole)
      → (stage_budget shop_scope manager_session "shop" campaign "spring"
          (pos 12)
          "USD"
          "more sales"
          (new_env first_world)).0
        ≡ ok c
      → Stored c
          (stage_budget shop_scope manager_session "shop" campaign "spring"
            (pos 12)
            "USD"
            "more sales"
            (new_env first_world)).1
        × IsStagedFor manager_session "shop"
            (λ t. record t { budget = some (pos 12) })
            budget_change
            c)
    × ((c : Change Whole)
        → (stage_status shop_scope manager_session "shop" campaign "spring" "DISABLE" "more sales"
            (new_env first_world)).0
          ≡ ok c
        → Stored c
            (stage_status shop_scope manager_session "shop" campaign "spring" "DISABLE" "more sales"
              (new_env first_world)).1
          × IsStagedFor manager_session "shop"
              (λ t. record t { status = "DISABLE" })
              status_change
              c)
manager_stages_example =
    manager_stages shop_scope manager_session "shop" campaign "spring" (pos 12) "USD" "DISABLE"
      "more sales" (new_env first_world) (new_env-IsSound first_world)

scope_made : (new_scope "group" "Group" (shop_binding ∷ []) (new_env first_world)).0 ≡ ok shop_scope
unfolding new_scope bind_all wrong_account valid_environment all_runes is_alphanumeric is_upper
    is_digit ◌>>=◌ pure reject attempt seen
scope_made = refl

new_scope-IsBound_example : IsBound 1 shop_scope
new_scope-IsBound_example =
    new_scope-IsBound "group" "Group" (shop_binding ∷ []) (new_env first_world) scope_made
