-- ===== src/Sandbox/Bundle/Confirmed.antt =====
-- internal/sandbox/operations.go and operation_readback.go: the readback of a bundle.
use ad_agent.Prelude.{
  ℕ, suc, String, eq_iff, eq_refl, ◌≡◌, refl, true, false, Option, none, some, List, [], ◌∷◌,
  length, eqb, All, All-map, arith,
}
use ad_agent.Prelude.Result.{ok, ◌>>=◌}
use ad_agent.Ads.Decimal.{Decimal}
use ad_agent.Ads.Types.{Level, campaign, ad_group, ad, same_level, Entity}
use ad_agent.Ads.Operations.{AdGroupSpec, AdCreativeSpec, CampaignBundleSpec, OperationResource}
use ad_agent.Store.Session.{seen}
use ad_agent.Sandbox.Backend.{Backend, created_entity, get}
use ad_agent.Sandbox.Simulation.{has_text}
use ad_agent.Sandbox.Bundle.{Operated, settings_of, resource, campaign_request, group_request}
use ad_agent.Sandbox.Bundle.Readback.{
  JsonTexts, same_settings, same_amount, is_campaign_of, is_group_of, is_defined_as, has_settings,
  ads_stand, group_stands, bundle_stands,
}
use ad_agent.Sandbox.Bundle.Created.{ids, Distinct, AllStand}

unknown_id :
    (k : String) (ks known : List String)
    → All (λ j. has_text j (k ∷ ks) ≡ false) known
    → has_text k known ≡ false
unknown_id k ks [] h = refl
unknown_id k ks (j ∷ known) h =
    ground (arith, h.0, unknown_id k ks known h.1, eq_iff k j, eq_iff j k)

later_apart :
    (k : String) (ks known : List String)
    → All (λ j. has_text j (k ∷ ks) ≡ false) known
    → All (λ j. has_text j ks ≡ false) known
later_apart k ks known h = All-map (λ j a. ground (arith, a)) known h

settings_same :
    (id : String) (w : AdCreativeSpec) → same_settings (settings_of id w) (settings_of id w) ≡ true
unfolding same_settings settings_of
settings_same id w =
    rw
      (
        eq_refl id,
        eq_refl w.identity_id,
        eq_refl w.identity_type,
        eq_refl w.asset_id,
        eq_refl w.asset_kind,
        eq_refl w.primary_text,
        eq_refl w.call_to_action,
        eq_refl w.destination_url,
      )
      refl

module _ {D : Type 0} where
  get-found :
      (id : String) (l : Level) (b : Backend D) (e : Entity D)
      → seen id b.rules.entities ≡ some e
      → same_level e.level l ≡ true
      → get false l id b ≡ ok e
  unfolding get
  get-found id l b e at level = rw (at, level) refl

module _ {D : Type 0} ⦃dec : Decimal D⦄ (texts : JsonTexts D) where
  ads_stand-true :
      (n : ℕ) (group : String) (ws : List AdCreativeSpec) (rs : List OperationResource)
      (known : List String) (t : Operated D)
      → AllStand group ws rs t
      → All (λ j. has_text j (ids rs) ≡ false) known
      → Distinct (ids rs)
      → ads_stand texts (λ m. false) n group ws rs known t ≡ ok true
  unfolding ads_stand has_settings
  ads_stand-true n group [] rs known t h a d = refl
  ads_stand-true n group (w ∷ ws) [] known t h a d = absurd h
  ads_stand-true n group (w ∷ ws) (r ∷ rs) known t h a d =
      rw
        (
          ads_stand,
          h.0.kind,
          unknown_id r.id (ids rs) known a,
          get-found r.id ad t.backend h.0.entity h.0.at h.0.level,
          ◌>>=◌,
          h.0.matched,
          h.0.named,
          h.0.set,
          settings_same r.id w,
        )
        (ads_stand-true (suc n) group ws rs (r.id ∷ known) t h.1
          (d.0, later_apart r.id (ids rs) known a) d.1)

  amount_same : (o : Option D) → same_amount texts o o ≡ true
  amount_same none = refl
  amount_same (some v) = eq_refl (texts.amount_text v)

  pub campaign_same :
      (v : CampaignBundleSpec D) (account digits : String)
      → is_campaign_of texts v (created_entity account digits (campaign_request v)) ≡ true
  unfolding is_campaign_of created_entity
  campaign_same v account digits =
      rw
        (
          eq_refl v.campaign.name,
          eq_refl v.campaign.objective,
          eq_refl v.campaign.budget_mode,
          amount_same v.campaign.budget,
        )
        refl

  pub group_same :
      (v : CampaignBundleSpec D) (parent account digits : String)
      → is_group_of texts v parent (created_entity account digits (group_request parent v)) ≡ true
  unfolding is_group_of created_entity
  group_same v parent account digits =
      rw
        (
          eq_refl parent,
          eq_refl v.ad_group.name,
          eq_refl v.ad_group.budget_mode,
          eq_refl (texts.amount_text v.ad_group.budget),
        )
        refl

  defined_same : (w : AdGroupSpec D) → is_defined_as texts (some w) w ≡ true
  unfolding is_defined_as
  defined_same w = eq_refl (texts.group_text w)

  -- The group and its ads, once the campaign has been found.
  pub group_stands-true :
      (v : CampaignBundleSpec D) (c g : Entity D) (rs : List OperationResource) (t : Operated D)
      → seen g.id t.backend.rules.entities ≡ some g
      → same_level g.level ad_group ≡ true
      → is_group_of texts v c.id g ≡ true
      → seen g.id t.group_definitions ≡ some v.ad_group
      → AllStand g.id v.ads rs t
      → Distinct (c.id ∷ g.id ∷ ids rs)
      → group_stands texts (λ m. false) v c (resource g) rs t ≡ ok true
  unfolding group_stands resource
  group_stands-true v c g rs t at level right defined stand apart =
      rw
        (
          group_stands,
          get-found g.id ad_group t.backend g at level,
          ◌>>=◌,
          right,
          defined,
          defined_same v.ad_group,
        )
        (ads_stand-true 2 g.id v.ads rs (c.id ∷ g.id ∷ []) t stand
          (ground (arith, apart.0), (apart.1.0, tt)) apart.1.1)

  pub bundle_stands-true :
      (v : CampaignBundleSpec D) (c g : Entity D) (rs : List OperationResource) (t : Operated D)
      → length rs ≡ length v.ads
      → (resource c).kind ≡ "campaign"
      → (resource g).kind ≡ "ad_group"
      → seen c.id t.backend.rules.entities ≡ some c
      → same_level c.level campaign ≡ true
      → is_campaign_of texts v c ≡ true
      → group_stands texts (λ m. false) v c (resource g) rs t ≡ ok true
      → bundle_stands texts (λ m. false) v (resource c ∷ resource g ∷ rs) t ≡ ok true
  unfolding bundle_stands resource
  bundle_stands-true v c g rs t counted top below at level right group =
      let same : eqb (length rs) (length v.ads) ≡ true = ground (arith, counted) in
      rw
        (
          bundle_stands,
          same,
          top,
          below,
          get-found c.id campaign t.backend c at level,
          ◌>>=◌,
          right,
        )
        group
