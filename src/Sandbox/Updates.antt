-- ===== src/Sandbox/Updates.antt =====
-- internal/sandbox/operations.go: the update of an ad group in ApplyOperation, and the merges of
-- settings.
pub mod Readback
pub mod Confirmed
pub mod Round
use ad_agent.Prelude.{
  ℕ, suc, String, ◌==◌, Bool, true, false, not, ◌&&◌, ◌||◌, Option, none, some, List, [], ◌∷◌,
  length, eqb, if◌then◌else◌,
}
use ad_agent.Prelude.Result.{Result, ok, err, refuse, ◌>>=◌, ◌>>◌}
use ad_agent.Ads.Decimal.{Decimal}
use ad_agent.Ads.Types.{campaign, ad_group, Entity, WriteOutcome}
use ad_agent.Ads.Operations.{
  AdGroupUpdateSpec, AdCreativeUpdateSpec, OperationResource, OperationOutcome,
}
use ad_agent.Ads.Change.{Digests}
use ad_agent.Store.Session.{seen}
use ad_agent.Sandbox.Rules.{put}
use ad_agent.Sandbox.Backend.{Backend, context_error, get, write, no_entity}
use ad_agent.Sandbox.Bundle.{Operated}
use ad_agent.Sandbox.Bundle.Readback.{JsonTexts}

-- `if src != "" { dst = src }`, and the same for lists and for pointers.
abbrev pub text_or : String → String → String
text_or new old = if new == "" then old else new

abbrev pub list_or : List String → List String → List String
list_or [] old = old
list_or (x ∷ xs) old = x ∷ xs

abbrev pub value_or {ℓ} : {A : Type ℓ} → Option A → Option A → Option A
value_or none old = old
value_or (some v) old = some v

-- mergeAdGroup
unfoldable pub merge_ad_group :
    {D : Type 0} → AdGroupUpdateSpec D → AdGroupUpdateSpec D → AdGroupUpdateSpec D
merge_ad_group dst src = record {
  ad_group_id = src.ad_group_id;
  budget = value_or src.budget dst.budget;
  bid = value_or src.bid dst.bid;
  schedule_start = text_or src.schedule_start dst.schedule_start;
  schedule_end = text_or src.schedule_end dst.schedule_end;
  placements = list_or src.placements dst.placements;
  audience_ids = list_or src.audience_ids dst.audience_ids;
  excluded_audience_ids = list_or src.excluded_audience_ids dst.excluded_audience_ids;
  location_ids = list_or src.location_ids dst.location_ids;
  languages = list_or src.languages dst.languages;
}

-- mergeAdCreative
unfoldable pub merge_ad_creative :
    AdCreativeUpdateSpec → AdCreativeUpdateSpec → AdCreativeUpdateSpec
merge_ad_creative dst src = record {
  ad_id = src.ad_id;
  identity_id = text_or src.identity_id dst.identity_id;
  identity_type = if src.identity_id == "" then dst.identity_type else src.identity_type;
  asset_id = text_or src.asset_id dst.asset_id;
  asset_kind = if src.asset_id == "" then dst.asset_kind else src.asset_kind;
  primary_text = text_or src.primary_text dst.primary_text;
  call_to_action = text_or src.call_to_action dst.call_to_action;
  destination_url = text_or src.destination_url dst.destination_url;
}

module _ {D : Type 0} where
  abbrev pub no_group_settings : AdGroupUpdateSpec D
  no_group_settings = record {
    ad_group_id = "";
    budget = none;
    bid = none;
    schedule_start = "";
    schedule_end = "";
    placements = [];
    audience_ids = [];
    excluded_audience_ids = [];
    location_ids = [];
    languages = [];
  }

  abbrev pub settings_or_none : Option (AdGroupUpdateSpec D) → AdGroupUpdateSpec D
  settings_or_none none = no_group_settings
  settings_or_none (some now) = now

  unfoldable pub merged_group : AdGroupUpdateSpec D → Operated D → OperationOutcome × Operated D
  unfolding merge_ad_group
  merged_group v s = (
    record {
      state = "acknowledged";
      request_ids = "sandbox-operation" ∷ [];
      resources = record { kind = "ad_group"; id = v.ad_group_id; name = "" } ∷ [];
      message = "";
    },
    record s {
      group_settings =
          put v.ad_group_id
            (merge_ad_group (settings_or_none (seen v.ad_group_id s.group_settings)) v)
            s.group_settings;
    },
  )

  unfoldable pub after_budget :
      AdGroupUpdateSpec D → Operated D → WriteOutcome × Backend D → OperationOutcome × Operated D
  unfolding merged_group
  after_budget v s (o, b) =
      if o.state == "acknowledged" then merged_group v (record s { backend = b }) else (
        record {
          state = o.state;
          request_ids = o.request_id ∷ [];
          resources = [];
          message = o.message;
        },
        record s { backend = b },
      )

module _ {D : Type 0} ⦃dec : Decimal D⦄ ⦃dig : Digests D⦄ where
  -- The case UpdateAdGroup of ApplyOperation.
  unfoldable pub apply_group_update :
      (ℕ → Bool) → AdGroupUpdateSpec D → Operated D → OperationOutcome × Operated D
  unfolding merged_group after_budget
  apply_group_update ended v s = elim v.budget [
    | none ↦ merged_group v s
    | some amount ↦
        let target : Entity D = elim (get (ended 0) ad_group v.ad_group_id s.backend) [
          | err e ↦ no_entity
          | ok e ↦ e
        ] in
        after_budget v s (
          write (ended 1)
            (record { target = target; kind = "budget"; budget = v.budget; status = "" }) s.backend)
  ]
