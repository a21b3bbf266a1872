-- ===== src/Sandbox/Bundle/Readback.antt =====
-- internal/sandbox/operation_readback.go: reconcileBundle, which compares a bundle with what stands.
use ad_agent.Prelude.{
  ℕ, suc, String, ◌==◌, Bool, true, false, not, ◌&&◌, Option, none, some, List, [], ◌∷◌, length,
  eqb, if◌then◌else◌,
}
use ad_agent.Prelude.Result.{refuse, ◌>>◌, Result, ok, ◌>>=◌}
use ad_agent.Ads.Decimal.{Decimal}
use ad_agent.Ads.Types.{campaign, ad_group, ad, Entity}
use ad_agent.Ads.Operations.{
  AdGroupSpec, AdCreativeSpec, CampaignBundleSpec, AdCreativeUpdateSpec, OperationResource,
  OperationOutcome,
}
use ad_agent.Store.Session.{seen}
use ad_agent.Sandbox.Backend.{context_error, get}
use ad_agent.Sandbox.Simulation.{has_text}
use ad_agent.Sandbox.Bundle.{Operated, settings_of}

-- json.Marshal of an amount and of an ad group's definition.
pub record JsonTexts (D : Type 0) : Type 0 where
  pub amount_text : D → String
  pub group_text : AdGroupSpec D → String

-- A string map without the key gives the zero value.
abbrev no_settings : AdCreativeUpdateSpec
no_settings = record {
  ad_id = "";
  identity_id = "";
  identity_type = "";
  asset_id = "";
  asset_kind = "";
  primary_text = "";
  call_to_action = "";
  destination_url = "";
}

-- reflect.DeepEqual on the settings of ads, all of whose fields are texts.
unfoldable pub same_settings : AdCreativeUpdateSpec → AdCreativeUpdateSpec → Bool
same_settings a b =
    a.ad_id == b.ad_id
    && a.identity_id == b.identity_id
    && a.identity_type == b.identity_type
    && a.asset_id == b.asset_id
    && a.asset_kind == b.asset_kind
    && a.primary_text == b.primary_text
    && a.call_to_action == b.call_to_action
    && a.destination_url == b.destination_url

unfoldable pub is_ad_of : {D : Type 0} → AdCreativeSpec → String → Entity D → Bool
is_ad_of w parent e = e.parent_id == parent && e.name == w.name && e.status == "DISABLE"

unfoldable pub has_settings : Option AdCreativeUpdateSpec → AdCreativeUpdateSpec → Bool
unfolding same_settings
has_settings none w = same_settings no_settings w
has_settings (some a) w = same_settings a w

module _ {D : Type 0} ⦃dec : Decimal D⦄ where
  abbrev no_group : AdGroupSpec D
  no_group = record {
    name = "";
    budget = dec.of_int 0;
    budget_mode = "";
    billing_event = "";
    optimization_goal = "";
    optimization_event = "";
    bid_type = "";
    bid = none;
    pacing = "";
    schedule_type = "";
    schedule_start = "";
    schedule_end = "";
    placements = [];
    location_ids = [];
    languages = [];
    age_groups = [];
    gender = "";
    audience_ids = [];
    excluded_audience_ids = [];
    pixel_id = "";
    status = "";
  }

module _ {D : Type 0} ⦃dec : Decimal D⦄ (texts : JsonTexts D) where
  -- equalJSON on optional amounts
  abbrev pub same_amount : Option D → Option D → Bool
  same_amount none none = true
  same_amount (some a) (some b) = texts.amount_text a == texts.amount_text b
  same_amount _ _ = false

  unfoldable pub is_campaign_of : CampaignBundleSpec D → Entity D → Bool
  is_campaign_of v c =
      c.name == v.campaign.name
      && c.objective == v.campaign.objective
      && c.status == "DISABLE"
      && c.budget_mode == v.campaign.budget_mode
      && same_amount c.budget v.campaign.budget

  unfoldable pub is_group_of : CampaignBundleSpec D → String → Entity D → Bool
  is_group_of v parent g =
      g.parent_id == parent
      && g.name == v.ad_group.name
      && g.status == "DISABLE"
      && g.budget_mode == v.ad_group.budget_mode
      && same_amount g.budget (some v.ad_group.budget)

  unfoldable pub is_defined_as : Option (AdGroupSpec D) → AdGroupSpec D → Bool
  is_defined_as none w = texts.group_text no_group == texts.group_text w
  is_defined_as (some d) w = texts.group_text d == texts.group_text w

  module _ (ended : ℕ → Bool) where
    -- The loop over the ads, with the ids of the resources before them.
    unfoldable pub ads_stand :
        ℕ
        → String
        → List AdCreativeSpec
        → List OperationResource
        → List String
        → Operated D
        → Result Bool
    unfolding is_ad_of has_settings settings_of
    ads_stand n group [] rs known s = ok true
    ads_stand n group (w ∷ ws) [] known s = ok false
    ads_stand n group (w ∷ ws) (r ∷ rs) known s =
        elim (r.kind == "ad" && not (has_text r.id known)) [
          | false ↦ ok false
          | true ↦ do
            e ← get (ended n) ad r.id s.backend
            elim (is_ad_of w group e
                && has_settings (seen e.id s.ad_settings) (settings_of e.id w)) [
                  | false ↦ ok false
                  | true ↦ ads_stand (suc n) group ws rs (r.id ∷ known) s
                ]
        ]

    unfoldable pub group_stands :
        CampaignBundleSpec D
        → Entity D
        → OperationResource
        → List OperationResource
        → Operated D
        → Result Bool
    unfolding is_group_of is_defined_as ads_stand
    group_stands v c r rs s = do
      g ← get (ended 1) ad_group r.id s.backend
      elim (is_group_of v c.id g && is_defined_as (seen g.id s.group_definitions) v.ad_group) [
        | false ↦ ok false
        | true ↦ ads_stand 2 g.id v.ads rs (c.id ∷ g.id ∷ []) s
      ]

    unfoldable pub bundle_stands :
        CampaignBundleSpec D → List OperationResource → Operated D → Result Bool
    unfolding is_campaign_of group_stands
    bundle_stands v (r ∷ q ∷ rs) s =
        elim (eqb (length rs) (length v.ads) && (r.kind == "campaign" && q.kind == "ad_group")) [
          | false ↦ ok false
          | true ↦ do
            c ← get (ended 0) campaign r.id s.backend
            elim (is_campaign_of v c) [ false ↦ ok false | true ↦ group_stands v c q rs s ]
        ]
    bundle_stands v _ s = ok false

    -- ReconcileOperation of a bundle
    unfoldable pub reconcile_bundle :
        Bool → CampaignBundleSpec D → OperationOutcome → Operated D → Result Bool
    unfolding bundle_stands
    reconcile_bundle cancelled v o s = do
      refuse cancelled context_error
      if o.state == "acknowledged" then bundle_stands v o.resources s else ok false
