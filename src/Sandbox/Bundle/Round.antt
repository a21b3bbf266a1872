-- ===== src/Sandbox/Bundle/Round.antt =====
-- internal/sandbox/operations.go and operation_readback.go: the round from ApplyOperation to
-- ReconcileOperation of a campaign bundle.
use ad_agent.Prelude.{
  ℕ, String, ◌==◌, eq_refl, ◌≡◌, refl, ap, ◌∙◌, Bool, true, false, Option, some, List, [], ◌∷◌,
  arith, inl, inr,
}
use ad_agent.Prelude.Result.{ok, Result-cases}
use ad_agent.Ads.Decimal.{Decimal}
use ad_agent.Ads.Types.{same_level, level_text, Entity}
use ad_agent.Ads.Operations.{CampaignBundleSpec, OperationResource, OperationOutcome}
use ad_agent.Store.Session.{seen}
use ad_agent.Sandbox.Rules.{put}
use ad_agent.Sandbox.Evaluate.Limits.{seen-put}
use ad_agent.Sandbox.Backend.{created_entity, create, with_entity}
use ad_agent.Sandbox.Bundle.{
  Operated, resource, campaign_request, group_request, with_group, create_group, create_bundle,
  rejected, partial, finish_bundle,
}
use ad_agent.Sandbox.Bundle.Readback.{JsonTexts, bundle_stands, reconcile_bundle}
use ad_agent.Sandbox.Bundle.Created.{ids, Distinct, AdsMade, create-made, create_ads-made}
use ad_agent.Sandbox.Bundle.Confirmed.{
  group_stands-true, bundle_stands-true, campaign_same, group_same,
}

module _ {D : Type 0} ⦃dec : Decimal D⦄ (texts : JsonTexts D) where
  made_stands :
      (v : CampaignBundleSpec D) (account d₀ d₁ : String) (s t : Operated D)
      {rs : List OperationResource}
      → let c : Entity D = created_entity account d₀ (campaign_request v) in
        let g : Entity D = created_entity account d₁ (group_request c.id v) in
        let s₁ : Operated D = record s { backend = with_entity c s.backend } in
        AdsMade g.id v.ads
          (resource c ∷ resource g ∷ [])
          (with_group g.id v.ad_group (with_entity g s₁.backend) s₁)
          rs
          t
        → Distinct (ids rs)
        → bundle_stands texts (λ m. false) v rs t ≡ ok true
  unfolding resource created_entity same_level level_text
  made_stands v account d₀ d₁ s t made distinct =
      let c : Entity D = created_entity account d₀ (campaign_request v) in
      let g : Entity D = created_entity account d₁ (group_request c.id v) in
      let es = s.backend.rules.entities in
      let apart : Distinct (c.id ∷ g.id ∷ ids made.new) = rw made.listed at distinct in
      let other : (g.id == c.id) ≡ false = ground (arith, apart.0) in
      let group : seen g.id t.backend.rules.entities ≡ some g =
        rw (made.kept.entities g.id apart.1.0, seen-put g.id g.id g (put c.id c es), eq_refl g.id)
          refl in
      let top : seen c.id t.backend.rules.entities ≡ some c =
        rw
          (
            made.kept.entities c.id (ground (arith, apart.0)),
            seen-put c.id g.id g (put c.id c es),
            other,
            seen-put c.id c.id c es,
            eq_refl c.id,
          )
          refl in
      let defined : seen g.id t.group_definitions ≡ some v.ad_group =
        rw (made.kept.definitions, seen-put g.id g.id v.ad_group s.group_definitions, eq_refl g.id)
          refl in
      rw made.listed (
        bundle_stands-true texts v c g made.new t made.counted refl refl top refl
          (campaign_same texts v account d₀)
          (group_stands-true texts v c g made.new t group refl (group_same texts v c.id account d₁)
            defined (made.stand apart.1.1) apart))

  finished :
      (x : Bool × List OperationResource × Operated D) {o : OperationOutcome} {t : Operated D}
      → finish_bundle x ≡ (o, t)
      → o.state ≡ "acknowledged"
      → x ≡ (true, o.resources, t)
  unfolding finish_bundle
  finished (true, rs, s) h state = ap (λ p. (true, p.0.resources, p.1)) h
  finished (false, rs, s) h state = let stops = ap (λ p. p.0.state) h ∙ state in cc stops

  group_created :
      (ended : ℕ → Bool) (drawn : ℕ → Option String) (v : CampaignBundleSpec D) (d₀ : String)
      (s : Operated D) {o : OperationOutcome} {t : Operated D}
      → let c : Entity D = created_entity s.backend.account.id d₀ (campaign_request v) in
        create_group ended drawn v c (record s { backend = with_entity c s.backend }) ≡ (o, t)
        → o.state ≡ "acknowledged"
        → Distinct (ids o.resources)
        → bundle_stands texts (λ m. false) v o.resources t ≡ ok true
  unfolding create_group partial
  group_created ended drawn v d₀ s h state distinct =
      let account = s.backend.account.id in
      let c : Entity D = created_entity account d₀ (campaign_request v) in
      let s₁ : Operated D = record s { backend = with_entity c s.backend } in
      elim (Result-cases (create (ended 1) (drawn 1) (group_request c.id v) s₁.backend)) [
        | inl (e, failed) ↦
            let stops = ap (λ p. p.0.state) (rw (create_group, failed) at h) ∙ state in cc stops
        | inr ((g, b), made) ↦
            let (d₁, is_g, is_b) =
              create-made (ended 1) (drawn 1) (group_request c.id v) s₁.backend made in
            let grouped = rw (create_group, made) at h in
            let new : Entity D = created_entity account d₁ (group_request c.id v) in
            let all_made =
              create_ads-made ended drawn 2 new.id v.ads (resource c ∷ resource new ∷ [])
                (with_group new.id v.ad_group (with_entity new s₁.backend) s₁)
                (finished _ (rw (is_g, is_b) at grouped) state) in
            made_stands v account d₀ d₁ s _ all_made distinct
      ]

  -- When a campaign bundle is created whole, and the ids that were drawn for its objects differ from
  -- one another, a reconciliation of that outcome at once reports that it stands as requested.
  pub create_bundle-reconciles :
      (ended : ℕ → Bool) (drawn : ℕ → Option String) (v : CampaignBundleSpec D) (s : Operated D)
      {o : OperationOutcome} {t : Operated D}
      → create_bundle ended drawn v s ≡ (o, t)
      → o.state ≡ "acknowledged"
      → Distinct (ids o.resources)
      → reconcile_bundle texts (λ m. false) false v o t ≡ ok true
  unfolding create_bundle reconcile_bundle rejected
  create_bundle-reconciles ended drawn v s h state distinct =
      elim (Result-cases (create (ended 0) (drawn 0) (campaign_request v) s.backend)) [
        | inl (e, failed) ↦
            let stops = ap (λ p. p.0.state) (rw (create_bundle, failed) at h) ∙ state in cc stops
        | inr ((c, b), made) ↦
            let (d₀, is_c, is_b) =
              create-made (ended 0) (drawn 0) (campaign_request v) s.backend made in
            let grouped = rw (create_bundle, made) at h in
            rw (reconcile_bundle, state)
              (group_created ended drawn v d₀ s (rw (is_c, is_b) at grouped) state distinct)
      ]
