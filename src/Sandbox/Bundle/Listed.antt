-- ===== src/Sandbox/Bundle/Listed.antt =====
-- internal/sandbox/operations.go: what the creations of a campaign bundle do to the entities, and what
-- its resources name.
use mathlib.Core.List.{append_assoc, append-nil}
use ad_agent.Prelude.{
  ℕ, suc, String, ◌==◌, eq_refl, ◌≡◌, refl, sym, ap, subst, ◌∙◌, ◌⊎◌, Bool, true, Option, some,
  List, [], ◌∷◌, ◌++◌, Bool-cases, inl, inr,
}
use ad_agent.Prelude.Result.{ok, Result-cases}
use ad_agent.Ads.Decimal.{Decimal}
use ad_agent.Ads.Types.{level_text, Entity, CreateRequest}
use ad_agent.Ads.Operations.{AdCreativeSpec, CampaignBundleSpec, OperationResource}
use ad_agent.Store.Session.{seen}
use ad_agent.Sandbox.Evaluate.Limits.{seen-put}
use ad_agent.Sandbox.Backend.{Backend, created_entity, create}
use ad_agent.Sandbox.Bundle.{Operated, resource, ad_request, with_ad, create_ads}
use ad_agent.Sandbox.Bundle.Created.{create-made}

module _ {D : Type 0} where
  -- Every entity now was there before, or is disabled, and no entity has gone.
  pub record Disabled (a b : Backend D) : Type 0 where
    pub each :
        (k : String) (e : Entity D)
        → seen k b.rules.entities ≡ some e
        → (seen k a.rules.entities ≡ some e) ⊎ (e.status ≡ "DISABLE")
    pub kept :
        (k : String) (e : Entity D)
        → seen k a.rules.entities ≡ some e
        → (f : Entity D) × (seen k b.rules.entities ≡ some f)

  pub Disabled-refl : (a : Backend D) → Disabled a a
  Disabled-refl a = record { each = λ k e h. inl h; kept = λ k e h. (e, h) }

  pub Disabled-trans : {a b c : Backend D} → Disabled a b → Disabled b c → Disabled a c
  Disabled-trans h g = record {
    each = λ k e now. elim (g.each k e now) [ inl before ↦ h.each k e before | inr off ↦ inr off ];
    kept = λ k e before. let (f, mid) = h.kept k e before in g.kept k f mid;
  }

  -- A resource of a kind and a name, under whose id an entity stands.
  pub record Stands (kind name : String) (r : OperationResource) (b : Backend D) : Type 0 where
    pub of_kind : r.kind ≡ kind
    pub named : r.name ≡ name
    pub entity : Entity D
    pub at : seen r.id b.rules.entities ≡ some entity

  pub Stands-Disabled :
      {kind name : String} {r : OperationResource} {a b : Backend D}
      → Disabled a b
      → Stands kind name r a
      → Stands kind name r b
  Stands-Disabled {r = r} h s =
      let (f, now) = h.kept r.id s.entity s.at in
      record { of_kind = s.of_kind; named = s.named; entity = f; at = now }

  abbrev pub AdsListed : List AdCreativeSpec → List OperationResource → Backend D → Type 0
  AdsListed [] [] b = Unit
  AdsListed (w ∷ ws) (r ∷ rs) b = Stands "ad" w.name r b × AdsListed ws rs b
  AdsListed _ _ b = ⊥

  -- The campaign, the ad group and each ad of the bundle, in this order.
  abbrev pub BundleListed : CampaignBundleSpec D → List OperationResource → Backend D → Type 0
  BundleListed v (c ∷ g ∷ rs) b =
      Stands "campaign" v.campaign.name c b
      × Stands "ad_group" v.ad_group.name g b
      × AdsListed v.ads rs b
  BundleListed v _ b = ⊥

module _ {D : Type 0} ⦃dec : Decimal D⦄ where
  pub create-Disabled :
      (cancelled : Bool) (drawn : Option String) (r : CreateRequest D) (b : Backend D)
      {e : Entity D} {b' : Backend D}
      → r.status ≡ "DISABLE"
      → create cancelled drawn r b ≡ ok (e, b')
      → Disabled b b'
  unfolding created_entity
  create-Disabled cancelled drawn r b off h =
      let (digits, _, is_b) = create-made cancelled drawn r b h in
      let new : Entity D = created_entity b.account.id digits r in
      rw is_b (record {
        each = λ k e now. elim (Bool-cases (new.id == k)) [
          | inl here ↦
              let same : some new ≡ some e =
                rw (seen-put k new.id new b.rules.entities, here) at now in
              let is_new : new ≡ e = cc same in inr (rw (← is_new) off)
          | inr other ↦ inl (rw (seen-put k new.id new b.rules.entities, other) at now)
        ];
        kept = λ k e before. elim (Bool-cases (new.id == k)) [
          | inl here ↦ (new, rw (seen-put k new.id new b.rules.entities, here) refl)
          | inr other ↦ (e, rw (seen-put k new.id new b.rules.entities, other) before)
        ];
      })

  pub create-Stands :
      (cancelled : Bool) (drawn : Option String) (r : CreateRequest D) (b : Backend D)
      {e : Entity D} {b' : Backend D}
      → create cancelled drawn r b ≡ ok (e, b')
      → Stands (level_text r.level) r.name (resource e) b'
  unfolding created_entity resource
  create-Stands cancelled drawn r b h =
      let (digits, is_e, is_b) = create-made cancelled drawn r b h in
      let new : Entity D = created_entity b.account.id digits r in
      rw (is_e, is_b)
        (record {
          of_kind = refl;
          named = refl;
          entity = new;
          at = rw (seen-put new.id new.id new b.rules.entities, eq_refl new.id) refl;
        })

  module _ (ended : ℕ → Bool) (drawn : ℕ → Option String) where
    pub create_ads-Disabled :
        (n : ℕ) (group : String) (ws : List AdCreativeSpec) (done : List OperationResource)
        (s : Operated D)
        → Disabled s.backend (create_ads ended drawn n group ws done s).2.backend
    unfolding create_ads
    create_ads-Disabled n group [] done s = Disabled-refl s.backend
    create_ads-Disabled n group (w ∷ ws) done s =
        elim (Result-cases (create (ended n) (drawn n) (ad_request group w) s.backend)) [
          | inl (e, failed) ↦ rw (create_ads, failed) (Disabled-refl s.backend)
          | inr ((e, b), made) ↦
              rw (create_ads, made)
                (Disabled-trans
                  (create-Disabled (ended n) (drawn n) (ad_request group w) s.backend refl made)
                  (create_ads-Disabled (suc n) group ws (done ++ resource e ∷ [])
                    (with_ad e.id w b s)))
        ]

    -- The loop over the ads, when it creates all of them, lists each.
    pub create_ads-Listed :
        (n : ℕ) (group : String) (ws : List AdCreativeSpec) (done : List OperationResource)
        (s : Operated D) {rs : List OperationResource} {t : Operated D}
        → create_ads ended drawn n group ws done s ≡ (true, rs, t)
        → (new : List OperationResource) × (rs ≡ done ++ new) × AdsListed ws new t.backend
    unfolding create_ads level_text
    create_ads-Listed n group [] done s h = ([], sym (ap (λ p. p.1) h) ∙ sym (append-nil done), tt)
    create_ads-Listed n group (w ∷ ws) done s {rs} {t} h =
        elim (Result-cases (create (ended n) (drawn n) (ad_request group w) s.backend)) [
          | inl (e, failed) ↦ let stops = ap (λ p. p.0) (rw (create_ads, failed) at h) in cc stops
          | inr ((e, b), made) ↦
              let s₁ = with_ad e.id w b s in
              let h₁ : create_ads ended drawn (suc n) group ws (done ++ resource e ∷ []) s₁
                  ≡ (true, rs, t) =
                rw (create_ads, made) at h in
              let (new, listed, ads) =
                create_ads-Listed (suc n) group ws (done ++ resource e ∷ []) s₁ h₁ in
              let later : Disabled b t.backend =
                subst (λ (x : Operated D). Disabled b x.backend) (ap (λ p. p.2) h₁)
                  (create_ads-Disabled (suc n) group ws (done ++ resource e ∷ []) s₁) in
              let stands = create-Stands (ended n) (drawn n) (ad_request group w) s.backend made in
              (
                resource e ∷ new,
                listed ∙ append_assoc done (resource e ∷ []) new,
                (Stands-Disabled later stands, ads),
              )
        ]
