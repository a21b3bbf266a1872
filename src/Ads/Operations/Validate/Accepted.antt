-- ===== src/Ads/Operations/Validate/Accepted.antt =====
-- What an accepted operation request holds.
use ad_agent.Prelude.{
  ℕ, ◌≤◌, String, ◌==◌, eq_iff, ◌≡◌, refl, ◌⊎◌, Bool, true, false, not, ◌&&◌, ◌||◌, Option, none,
  some, List, [], ◌∷◌, All, length, is_some, ltb, eqb, arith,
}
use ad_agent.Prelude.Text.{is_blank, runes}
use ad_agent.Prelude.Result.{ok, refuse, bind_parts, refuse_passed}
use ad_agent.Ads.Decimal.{Decimal, is_positive}
use ad_agent.Ads.Operations.{
  OperationKind, create_campaign_bundle, update_ad_group, update_ad_creative, create_audience,
  create_automated_rule, moderate_comment, create_event_source, other_operation, CampaignBundleSpec,
  AdCreativeSpec, OperationRequest,
}
use ad_agent.Ads.Operations.Fields.{
  Formats, overlaps, validate_name, validate_time_required, validate_time_optional,
  validate_schedule_order, incomplete_creative, validate_creatives, validate_ad_update,
  validate_audience, validate_comment, validate_event_source,
}
use ad_agent.Ads.Operations.Validate.{
  validate_campaign_bundle, validate_bundle, validate_ad_group_update, validate_rule,
  validate_payload, payloads, validate_operation,
}

eqb_passed : (m n : ℕ) → not (eqb m n) ≡ false → m ≡ n
eqb_passed m n h = ground (arith, h)

same_passed : (s t : String) → not (s == t) ≡ false → s ≡ t
same_passed s t h = ground (arith, h, eq_iff s t)

or_right : (a b : Bool) → (a || b) ≡ false → b ≡ false
or_right true b h = cc h
or_right false b h = h

module _ (fmt : Formats) where
  creatives_off :
      (l : List AdCreativeSpec)
      → validate_creatives fmt l ≡ ok tt
      → All (λ a. a.status ≡ "DISABLE") l
  unfolding validate_creatives incomplete_creative
  creatives_off [] h = tt
  creatives_off (a ∷ rest) h =
      let (_, full, h₁) = bind_parts (refuse (incomplete_creative fmt a) _) _ h in
      let (_, _, h₂) = bind_parts (validate_name a.name) _ h₁ in
      let (_, _, h₃) = bind_parts (refuse (ltb 100 (length (runes a.primary_text))) _) _ h₂ in
      (
        same_passed a.status "DISABLE"
            (or_right _ _ (refuse_passed (incomplete_creative fmt a) _ full)),
        creatives_off rest h₃,
      )

module _ (fmt : Formats) {D : Type 0} ⦃dec : Decimal D⦄ where
  -- A campaign that nobody sees before it is enabled, and whose targeting is not contradictory.
  pub record SafeBundle (v : CampaignBundleSpec D) : Type 0 where
    pub campaign_off : v.campaign.status ≡ "DISABLE"
    pub ad_group_off : v.ad_group.status ≡ "DISABLE"
    pub paid : is_positive v.ad_group.budget ≡ true
    pub disjoint : overlaps v.ad_group.audience_ids v.ad_group.excluded_audience_ids ≡ false
    pub some_ads : 1 ≤ length v.ads
    pub few_ads : length v.ads ≤ 20
    pub ads_off : All (λ a. a.status ≡ "DISABLE") v.ads
    pub objective : (v.campaign.objective ≡ "TRAFFIC") ⊎ (v.campaign.objective ≡ "WEB_CONVERSIONS")

  bundle_safe : (v : CampaignBundleSpec D) → validate_campaign_bundle fmt v ≡ ok tt → SafeBundle v
  unfolding validate_campaign_bundle
  bundle_safe v h =
      let (_, size, h₁) =
        bind_parts
          (refuse
            (is_blank v.campaign.name
              || is_blank v.ad_group.name
              || eqb (length v.ads) 0
              || ltb 20 (length v.ads))
            _)
          _ h in
      let (_, goal, h₂) =
        bind_parts
          (refuse
            (not (v.campaign.objective == "TRAFFIC")
              && not (v.campaign.objective == "WEB_CONVERSIONS"))
            _)
          _ h₁ in
      let (_, _, h₃) = bind_parts (validate_name v.campaign.name) _ h₂ in
      let (_, _, h₄) = bind_parts (validate_name v.ad_group.name) _ h₃ in
      let (_, apart, h₅) =
        bind_parts (refuse (overlaps v.ad_group.audience_ids v.ad_group.excluded_audience_ids) _) _
          h₄ in
      let (_, off, h₆) =
        bind_parts
          (refuse (not (v.campaign.status == "DISABLE") || not (v.ad_group.status == "DISABLE")) _)
          _ h₅ in
      let (_, full, h₇) =
        bind_parts
          (refuse
            (not (is_positive v.ad_group.budget)
              || v.ad_group.budget_mode == ""
              || v.ad_group.billing_event == ""
              || v.ad_group.optimization_goal == ""
              || v.ad_group.pacing == ""
              || v.ad_group.schedule_type == ""
              || eqb (length v.ad_group.placements) 0
              || eqb (length v.ad_group.location_ids) 0)
            _)
          _ h₆ in
      let (_, _, h₈) = bind_parts (validate_time_required fmt v.ad_group.schedule_start) _ h₇ in
      let (_, _, h₉) = bind_parts (validate_time_optional fmt v.ad_group.schedule_end) _ h₈ in
      let (_, _, h₁₀) =
        bind_parts (validate_schedule_order fmt v.ad_group.schedule_start v.ad_group.schedule_end) _
          h₉ in
      let (_, _, h₁₁) =
        bind_parts
          (refuse
            (v.campaign.objective == "WEB_CONVERSIONS"
              && (v.ad_group.pixel_id == "" || v.ad_group.optimization_event == ""))
            _)
          _ h₁₀ in
      record {
        campaign_off = ground (arith, refuse_passed _ _ off, eq_iff v.campaign.status "DISABLE");
        ad_group_off = ground (arith, refuse_passed _ _ off, eq_iff v.ad_group.status "DISABLE");
        paid = ground (arith, refuse_passed _ _ full);
        disjoint = refuse_passed _ _ apart;
        some_ads = ground (arith, refuse_passed _ _ size);
        few_ads = ground (arith, refuse_passed _ _ size);
        objective = ground (
          arith,
          refuse_passed _ _ goal,
          eq_iff v.campaign.objective "TRAFFIC",
          eq_iff v.campaign.objective "WEB_CONVERSIONS",
        );
        ads_off = creatives_off fmt v.ads h₁₁;
      }

  -- The payload of the request's kind, and what it is accepted for.
  abbrev pub Accepted : OperationRequest D → OperationKind → Type 0
  Accepted r create_campaign_bundle =
      (v : CampaignBundleSpec D) × (r.campaign_bundle ≡ some v) × SafeBundle v
  Accepted r update_ad_group = is_some r.ad_group_update ≡ true
  Accepted r update_ad_creative = is_some r.ad_update ≡ true
  Accepted r create_audience = is_some r.audience ≡ true
  Accepted r create_automated_rule = is_some r.rule ≡ true
  Accepted r moderate_comment = is_some r.comment ≡ true
  Accepted r create_event_source = is_some r.event_source ≡ true
  Accepted r (other_operation x) = ⊥

  payload-Accepted :
      (r : OperationRequest D) (k : OperationKind) → validate_payload fmt k r ≡ ok tt → Accepted r k
  unfolding validate_payload validate_bundle validate_ad_group_update validate_ad_update
      validate_audience validate_rule validate_comment validate_event_source
  payload-Accepted r create_campaign_bundle h = bundle_present r.campaign_bundle refl h
    where
      bundle_present :
          (o : Option (CampaignBundleSpec D))
          → r.campaign_bundle ≡ o
          → validate_bundle fmt o ≡ ok tt
          → Accepted r create_campaign_bundle
      bundle_present none e h = cc h
      bundle_present (some v) e h = (v, e, bundle_safe v h)
  payload-Accepted r update_ad_group h = ground (arith, h)
  payload-Accepted r update_ad_creative h = ground (arith, h)
  payload-Accepted r create_audience h = ground (arith, h)
  payload-Accepted r create_automated_rule h = ground (arith, h)
  payload-Accepted r moderate_comment h = ground (arith, h)
  payload-Accepted r create_event_source h = ground (arith, h)
  payload-Accepted r (other_operation x) h = cc h

  -- An operation request is accepted only if it holds one payload and no other, the one of its
  -- kind; a new campaign bundle is accepted only with the campaign, the ad group and each of its
  -- one to 20 ads disabled, a positive budget, no audience both included and excluded, and one of
  -- the two objectives.
  pub validate_operation-Accepted :
      (r : OperationRequest D)
      → validate_operation fmt r ≡ ok tt
      → (payloads fmt r ≡ 1) × Accepted r r.kind
  unfolding validate_operation
  validate_operation-Accepted r h =
      let (_, single, h₁) = bind_parts (refuse (not (eqb (payloads fmt r) 1)) _) _ h in
      (
        eqb_passed (payloads fmt r) 1 (refuse_passed (not (eqb (payloads fmt r) 1)) _ single),
        payload-Accepted r r.kind h₁,
      )
