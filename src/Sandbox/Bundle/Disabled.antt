-- ===== src/Sandbox/Bundle/Disabled.antt =====
-- internal/sandbox/operations.go: what a campaign bundle leaves behind, created whole or not.
use ad_agent.Prelude.{
  ℕ, String, ◌≡◌, refl, ap, subst, ◌⊎◌, Bool, true, false, Option, List, [], ◌∷◌, inl, inr,
}
use ad_agent.Prelude.Result.{Result-cases}
use ad_agent.Ads.Decimal.{Decimal}
use ad_agent.Ads.Types.{level_text, Entity}
use ad_agent.Ads.Operations.{CampaignBundleSpec, OperationResource, OperationOutcome}
use ad_agent.Sandbox.Backend.{create}
use ad_agent.Sandbox.Bundle.{
  Operated, resource, campaign_request, group_request, with_group, create_group, create_bundle,
  rejected, partial, finish_bundle,
}
use ad_agent.Sandbox.Bundle.Listed.{
  Disabled, Disabled-refl, Disabled-trans, Stands, Stands-Disabled, BundleListed, create-Disabled,
  create-Stands, create_ads-Disabled, create_ads-Listed,
}

module _ {D : Type 0} where
  abbrev pub Settled : CampaignBundleSpec D → Operated D → OperationOutcome → Operated D → Type 0
  Settled v s o t =
      (o.state ≡ "rejected") × (t ≡ s)
      ⊎ ((o.state ≡ "partial")
          ⊎ ((o.state ≡ "acknowledged") × BundleListed v o.resources t.backend))

  pub record Cautious (v : CampaignBundleSpec D) (s : Operated D)
      (x : OperationOutcome × Operated D) : Type 0 where
    pub disabled : Disabled s.backend x.1.backend
    pub settled : Settled v s x.0 x.1

module _ {D : Type 0} ⦃dec : Decimal D⦄ where
  module _ (ended : ℕ → Bool) (drawn : ℕ → Option String) where
    finish_bundle-Cautious :
        (v : CampaignBundleSpec D) (s : Operated D) (x : Bool × List OperationResource × Operated D)
        → Disabled s.backend x.2.backend
        → ((rs : List OperationResource) (t : Operated D)
            → x ≡ (true, rs, t)
            → BundleListed v rs t.backend)
        → Cautious v s (finish_bundle x)
    unfolding finish_bundle
    finish_bundle-Cautious v s (true, rs, t) off listed = record {
      disabled = off;
      settled = inr (inr (refl, listed rs t refl));
    }
    finish_bundle-Cautious v s (false, rs, t) off listed = record {
      disabled = off;
      settled = inr (inl refl);
    }

    create_group-Cautious :
        (v : CampaignBundleSpec D) (c : Entity D) (s s₁ : Operated D)
        → Disabled s.backend s₁.backend
        → Stands "campaign" v.campaign.name (resource c) s₁.backend
        → Cautious v s (create_group ended drawn v c s₁)
    unfolding create_group partial level_text
    create_group-Cautious v c s s₁ off campaign =
        elim (Result-cases (create (ended 1) (drawn 1) (group_request c.id v) s₁.backend)) [
          | inl (e, failed) ↦
              rw (create_group, failed) (record { disabled = off; settled = inr (inl refl) })
          | inr ((g, b), made) ↦
              let s₂ = with_group g.id v.ad_group b s₁ in
              let two = resource c ∷ resource g ∷ [] in
              let group =
                create-Stands (ended 1) (drawn 1) (group_request c.id v) s₁.backend made in
              let group_off =
                create-Disabled (ended 1) (drawn 1) (group_request c.id v) s₁.backend refl made in
              let ads_off = create_ads-Disabled ended drawn 2 g.id v.ads two s₂ in
              rw (create_group, made)
                (finish_bundle-Cautious v s _
                  (Disabled-trans off (Disabled-trans group_off ads_off))
                  (λ rs t whole.
                    let later : Disabled b t.backend =
                      subst (λ (x : Operated D). Disabled b x.backend) (ap (λ p. p.2) whole)
                        ads_off in
                    let (new, listed, ads) =
                      create_ads-Listed ended drawn 2 g.id v.ads two s₂ whole in
                    rw listed (
                      Stands-Disabled (Disabled-trans group_off later) campaign,
                      Stands-Disabled later group,
                      ads,
                    )))
        ]

    -- A campaign bundle, whatever fails of it, enables nothing and removes nothing: each entity that
    -- stands afterwards stood before or is disabled. It is rejected with nothing changed, or partial,
    -- or acknowledged with exactly these resources in this order: the campaign, the ad group and each
    -- ad, each of its kind and its name in the bundle and with an entity standing under its id.
    pub create_bundle-Cautious :
        (v : CampaignBundleSpec D) (s : Operated D) → Cautious v s (create_bundle ended drawn v s)
    unfolding create_bundle rejected level_text
    create_bundle-Cautious v s =
        elim (Result-cases (create (ended 0) (drawn 0) (campaign_request v) s.backend)) [
          | inl (e, failed) ↦
              rw (create_bundle, failed)
                (record { disabled = Disabled-refl s.backend; settled = inl (refl, refl) })
          | inr ((c, b), made) ↦
              rw (create_bundle, made)
                (create_group-Cautious v c s (record s { backend = b })
                  (create-Disabled (ended 0) (drawn 0) (campaign_request v) s.backend refl made)
                  (create-Stands (ended 0) (drawn 0) (campaign_request v) s.backend made))
        ]
