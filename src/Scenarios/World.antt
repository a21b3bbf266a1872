-- ===== src/Scenarios/World.antt =====
-- A backend with one campaign, which answers every call, and a clock that moves on at each reading.
use ad_agent.Prelude.{
  ℕ, zero, suc, ◌+◌, String, ◌==◌, Option, none, some, [], false, if◌then◌else◌, Bool,
}
use Prim.Native.String.{◌++◌}
use ad_agent.Prelude.Result.{Result, ok, err}
use ad_agent.Ads.Types.{campaign, Source, Account, Entity}
use ad_agent.Ads.Operations.{OperationRequest, OperationPlan}
use ad_agent.Ads.Operations.Fields.{Formats}
use ad_agent.Ads.Change.{Digests}
use ad_agent.Store.Changes.Exclusive.{no_faults}
use ad_agent.Service.Platform.{Platform}
use ad_agent.Service.Limits.Returns.{lacks_payload}
use ad_agent.Scenarios.Numbers.{Whole, pos, negsuc}

pub record World : Type 0 where
  pub clock : ℕ
  pub drawn : String
  pub lossy : Bool  -- whether the answer to a write is lost
  pub target : Entity Whole

abbrev pub shop_source : Source
shop_source = record { backend = "sandbox"; environment = "demo"; account_id = "shop" }

abbrev pub shop_account : Account
shop_account = record {
  id = "shop";
  name = "Shop";
  currency = "USD";
  timezone = "UTC";
  source = shop_source;
  latest_date = "2026-01-31";
  limitations = [];
}

abbrev pub with_budget : ℕ → Entity Whole
with_budget n = record {
  id = "spring";
  account_id = "shop";
  level = campaign;
  parent_id = "";
  name = "Spring";
  status = "ENABLE";
  budget = some (pos n);
  budget_mode = "DAILY";
  objective = "TRAFFIC";
}

-- A number in strokes.
abbrev pub strokes : ℕ → String
strokes zero = ""
strokes (suc n) = "I" ++ strokes n

abbrev pub budget_text : Option Whole → String
budget_text none = "none"
budget_text (some (pos n)) = strokes n
budget_text (some (negsuc n)) = "-" ++ strokes (suc n)

instance abbrev pub text_digests : Digests Whole
text_digests = record {
  entity_version = λ e. e.id ++ ("/" ++ (e.status ++ ("/" ++ budget_text e.budget)));
  plan_version = λ p. p.precondition_hash;
}

abbrev pub changed : Option Whole → String → Entity Whole → Entity Whole
changed (some b) status e = record e { budget = some b }
changed none status e = record e { status = status }

abbrev pub planned : OperationRequest Whole → OperationPlan Whole
planned r = record { request = r; lines = []; precondition_hash = "hash"; spend_increasing = false }

-- A request without the payload of its kind is refused.
abbrev pub prepared : OperationRequest Whole → Result (OperationPlan Whole)
prepared r = if lacks_payload r.kind r then err "invalid request" else ok (planned r)

instance abbrev pub one_campaign : Platform Whole World
one_campaign = record {
  account = λ w. (ok shop_account, w);
  get = λ level id w. (if id == w.target.id then ok w.target else err "entity not found", w);
  write = λ r w. (
    record {
      state = if w.lossy then "unknown" else "acknowledged";
      request_id = "r";
      message = "";
    },
    record w { target = changed r.budget r.status w.target },
  );
  create = λ r w. (err "unsupported", w);
  plan_operation = λ r w. (err "unsupported", w);
  prepare_operation = λ r w. (prepared r, w);
  apply_operation =
      λ plan w. (record { state = "not_sent"; request_ids = []; resources = []; message = "" }, w);
  reconcile_operation = λ plan o w. (err "unsupported", w);
  now = λ w. (w.clock, record w { clock = w.clock + 1 });
  fresh_id = λ prefix w. (prefix ++ ("_" ++ w.drawn), record w { drawn = "I" ++ w.drawn });
  faults = λ w. (no_faults, w);
}

abbrev pub plain_formats : Formats
plain_formats = record {
  parse_time = λ s. some 0;
  parse_url = λ s. some (record { scheme = "https"; host = "shop.example"; has_user = false });
}
