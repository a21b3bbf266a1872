-- ===== src/Sandbox/Bundle.antt =====
-- internal/sandbox/operations.go: the campaign bundle of ApplyOperation. `ended n` says whether the caller's
-- context has ended at the n-th call of the backend, and `drawn n` what the random source gives to the n-th creation.
pub mod Readback
pub mod Created
pub mod Confirmed
pub mod Round
pub mod Listed
pub mod Disabled
use ad_agent.Prelude.{
  ℕ, zero, suc, ◌+◌, String, ◌==◌, Bool, true, false, not, ◌&&◌, ◌||◌, Option, none, some, List, [],
  ◌∷◌, ◌++◌, length, eqb, if◌then◌else◌,
}
use ad_agent.Prelude.Result.{Result, ok, err, ◌>>=◌}
use ad_agent.Ads.Decimal.{Decimal}
use ad_agent.Ads.Types.{campaign, ad_group, ad, level_text, Entity, CreateRequest}
use ad_agent.Ads.Operations.{
  AdGroupSpec, AdCreativeSpec, CampaignBundleSpec, AdGroupUpdateSpec, AdCreativeUpdateSpec,
  OperationResource, OperationOutcome,
}
use ad_agent.Store.Session.{seen}
use ad_agent.Sandbox.Rules.{put}
use ad_agent.Sandbox.Backend.{Backend, create, get}
use ad_agent.Sandbox.Simulation.{has_text}

-- The backend with the maps of OperationState that a bundle writes.
pub record Operated (D : Type 0) : Type 0 where
  pub backend : Backend D
  pub group_definitions : List (String × AdGroupSpec D)
  pub group_settings : List (String × AdGroupUpdateSpec D)
  pub ad_settings : List (String × AdCreativeUpdateSpec)

-- The settings that an ad of a bundle is created with.
unfoldable pub settings_of : String → AdCreativeSpec → AdCreativeUpdateSpec
settings_of id w = record {
  ad_id = id;
  identity_id = w.identity_id;
  identity_type = w.identity_type;
  asset_id = w.asset_id;
  asset_kind = w.asset_kind;
  primary_text = w.primary_text;
  call_to_action = w.call_to_action;
  destination_url = w.destination_url;
}

abbrev acknowledged : List OperationResource → OperationOutcome
acknowledged rs = record {
  state = "acknowledged";
  request_ids = "sandbox-operation" ∷ [];
  resources = rs;
  message = "";
}

-- rejected
unfoldable pub rejected : String → OperationOutcome
rejected message = record {
  state = "rejected";
  request_ids = [];
  resources = [];
  message = message;
}

module _ {D : Type 0} where
  -- resource
  unfoldable pub resource : Entity D → OperationResource
  unfolding level_text
  resource e = record { kind = level_text e.level; id = e.id; name = e.name }

  -- partial
  unfoldable pub partial : String → Entity D → OperationOutcome
  unfolding resource
  partial message e = record (acknowledged (resource e ∷ [])) {
    state = "partial";
    message = message;
  }

  abbrev pub campaign_request : CampaignBundleSpec D → CreateRequest D
  campaign_request v = record {
    level = campaign;
    parent_id = "";
    name = v.campaign.name;
    status = "DISABLE";
    budget = v.campaign.budget;
    budget_mode = v.campaign.budget_mode;
    objective = v.campaign.objective;
  }

  abbrev pub group_request : String → CampaignBundleSpec D → CreateRequest D
  group_request parent v = record {
    level = ad_group;
    parent_id = parent;
    name = v.ad_group.name;
    status = "DISABLE";
    budget = some v.ad_group.budget;
    budget_mode = v.ad_group.budget_mode;
    objective = "";
  }

  abbrev pub ad_request : String → AdCreativeSpec → CreateRequest D
  ad_request parent w = record {
    level = ad;
    parent_id = parent;
    name = w.name;
    status = "DISABLE";
    budget = none;
    budget_mode = "";
    objective = "";
  }

  abbrev pub group_settings_of : String → AdGroupSpec D → AdGroupUpdateSpec D
  group_settings_of id w = record {
    ad_group_id = id;
    budget = none;
    bid = w.bid;
    schedule_start = w.schedule_start;
    schedule_end = w.schedule_end;
    placements = w.placements;
    audience_ids = w.audience_ids;
    excluded_audience_ids = w.excluded_audience_ids;
    location_ids = w.location_ids;
    languages = w.languages;
  }

  abbrev pub with_ad : String → AdCreativeSpec → Backend D → Operated D → Operated D
  with_ad id w b s = record s { backend = b; ad_settings = put id (settings_of id w) s.ad_settings }

  abbrev pub with_group : String → AdGroupSpec D → Backend D → Operated D → Operated D
  with_group id w b s = record s {
    backend = b;
    group_definitions = put id w s.group_definitions;
    group_settings = put id (group_settings_of id w) s.group_settings;
  }

  unfoldable pub finish_bundle :
      Bool × List OperationResource × Operated D → OperationOutcome × Operated D
  finish_bundle (true, rs, s) = (acknowledged rs, s)
  finish_bundle (false, rs, s) = (
    record (acknowledged rs) { state = "partial"; message = "campaign bundle partially created" },
    s,
  )

module _ {D : Type 0} ⦃dec : Decimal D⦄ (ended : ℕ → Bool) (drawn : ℕ → Option String) where
  -- The loop over the ads: whether all are created, and the resources so far.
  unfoldable pub create_ads :
      ℕ
      → String
      → List AdCreativeSpec
      → List OperationResource
      → Operated D
      → Bool × List OperationResource × Operated D
  unfolding resource
  create_ads n group [] done s = (true, done, s)
  create_ads n group (w ∷ ws) done s =
      elim (create (ended n) (drawn n) (ad_request group w) s.backend) [
        | err e ↦ (false, done, s)
        | ok (e, b) ↦ create_ads (suc n) group ws (done ++ resource e ∷ []) (with_ad e.id w b s)
      ]

  unfoldable pub create_group :
      CampaignBundleSpec D → Entity D → Operated D → OperationOutcome × Operated D
  unfolding resource partial create_ads finish_bundle
  create_group v c s = elim (create (ended 1) (drawn 1) (group_request c.id v) s.backend) [
    | err e ↦ (partial e c, s)
    | ok (g, b) ↦
        finish_bundle
          (create_ads 2 g.id v.ads (resource c ∷ resource g ∷ []) (with_group g.id v.ad_group b s))
  ]

  -- The case CreateCampaignBundle of ApplyOperation.
  unfoldable pub create_bundle : CampaignBundleSpec D → Operated D → OperationOutcome × Operated D
  unfolding create_group rejected
  create_bundle v s = elim (create (ended 0) (drawn 0) (campaign_request v) s.backend) [
    | err e ↦ (rejected e, s)
    | ok (c, b) ↦ create_group v c (record s { backend = b })
  ]
