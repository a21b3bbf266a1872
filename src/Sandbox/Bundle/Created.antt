-- ===== src/Sandbox/Bundle/Created.antt =====
-- internal/sandbox/operations.go: what stands after the campaign bundle has been created.
use mathlib.Core.List.{append_assoc, append-nil}
use ad_agent.Prelude.{
  ℕ, suc, String, ◌==◌, eq_refl, ◌≡◌, sym, ap, subst, ◌∙◌, refl, Bool, true, false, Option, some,
  List, [], ◌∷◌, ◌++◌, length, arith, Option-cases, inl, inr,
}
use ad_agent.Prelude.Result.{ok, refuse, bind_parts, ok-injective, Result-cases}
use ad_agent.Ads.Decimal.{Decimal}
use ad_agent.Ads.Types.{
  ad, same_level, level_text, Entity, CreateRequest, validate_create, check_entity,
}
use ad_agent.Ads.Operations.{AdCreativeSpec, OperationResource}
use ad_agent.Store.Session.{seen}
use ad_agent.Sandbox.Evaluate.Limits.{seen-put}
use ad_agent.Sandbox.Backend.{Backend, created_entity, create, with_entity, validate_new}
use ad_agent.Sandbox.Simulation.{has_text}
use ad_agent.Sandbox.Bundle.{Operated, settings_of, resource, ad_request, with_ad, create_ads}
use ad_agent.Sandbox.Bundle.Readback.{is_ad_of}

abbrev pub ids : List OperationResource → List String
ids [] = []
ids (r ∷ rs) = r.id ∷ ids rs

abbrev pub Distinct : List String → Type 0
Distinct [] = Unit
Distinct (k ∷ ks) = (has_text k ks ≡ false) × Distinct ks

module _ {D : Type 0} ⦃dec : Decimal D⦄ where
  pub create-made :
      (cancelled : Bool) (drawn : Option String) (r : CreateRequest D) (b : Backend D)
      {e : Entity D} {b' : Backend D}
      → create cancelled drawn r b ≡ ok (e, b')
      → (digits : String) × (e ≡ created_entity b.account.id digits r)
        × (b' ≡ with_entity (created_entity b.account.id digits r) b)
  unfolding create
  create-made cancelled drawn r b h =
      let (_, _, h₁) = bind_parts (refuse cancelled _) _ h in
      let (_, _, h₂) = bind_parts (validate_create r) _ h₁ in
      elim (Option-cases drawn) [
        | inl none_drawn ↦ let stops = rw none_drawn at h₂ in cc stops
        | inr (digits, was_drawn) ↦
            let new = created_entity b.account.id digits r in
            let (_, _, h₃) = bind_parts (check_entity new b.account.id) _ (rw was_drawn at h₂) in
            let (_, _, h₄) = bind_parts (validate_new b.rules.entities new) _ h₃ in
            let made = sym (ok-injective h₄) in (digits, ap (λ p. p.0) made, ap (λ p. p.1) made)
      ]

  -- The ad that a resource names, as the bundle asks for it.
  pub record AdStands (group : String) (w : AdCreativeSpec) (r : OperationResource) (s : Operated D)
      : Type 0 where
    pub entity : Entity D
    pub kind : r.kind ≡ "ad"
    pub at : seen r.id s.backend.rules.entities ≡ some entity
    pub named : entity.id ≡ r.id
    pub level : same_level entity.level ad ≡ true
    pub matched : is_ad_of w group entity ≡ true
    pub set : seen r.id s.ad_settings ≡ some (settings_of r.id w)

  abbrev pub AllStand : String → List AdCreativeSpec → List OperationResource → Operated D → Type 0
  AllStand group [] [] s = Unit
  AllStand group (w ∷ ws) (r ∷ rs) s = AdStands group w r s × AllStand group ws rs s
  AllStand group _ _ s = ⊥

  -- What is at other ids than these is the same in both states.
  pub record Kept (ks : List String) (s t : Operated D) : Type 0 where
    pub entities :
        (k : String)
        → has_text k ks ≡ false
        → seen k t.backend.rules.entities ≡ seen k s.backend.rules.entities
    pub settings :
        (k : String) → has_text k ks ≡ false → seen k t.ad_settings ≡ seen k s.ad_settings
    pub definitions : t.group_definitions ≡ s.group_definitions

  pub record AdsMade (group : String) (ws : List AdCreativeSpec) (done : List OperationResource)
      (s : Operated D) (rs : List OperationResource) (t : Operated D) : Type 0 where
    pub new : List OperationResource
    pub listed : rs ≡ done ++ new
    pub counted : length new ≡ length ws
    pub stand : Distinct (ids new) → AllStand group ws new t
    pub kept : Kept (ids new) s t

  new-stands :
      (group account digits : String) (w : AdCreativeSpec) (s t : Operated D) (ks : List String)
      → let e : Entity D = created_entity account digits (ad_request group w) in
        Kept ks (with_ad e.id w (with_entity e s.backend) s) t
        → has_text e.id ks ≡ false
        → AdStands group w (resource e) t
  unfolding resource created_entity is_ad_of same_level level_text
  new-stands group account digits w s t ks k apart =
      let e : Entity D = created_entity account digits (ad_request group w) in
      record {
        entity = e;
        kind = refl;
        at =
            rw (k.entities e.id apart, seen-put e.id e.id e s.backend.rules.entities, eq_refl e.id)
              refl;
        named = refl;
        level = refl;
        matched = rw (eq_refl group, eq_refl w.name) refl;
        set =
            rw
              (
                k.settings e.id apart,
                seen-put e.id e.id (settings_of e.id w) s.ad_settings,
                eq_refl e.id,
              )
              refl;
      }

  first-kept :
      (e : Entity D) (w : AdCreativeSpec) (s t : Operated D) (ks : List String)
      → Kept ks (with_ad e.id w (with_entity e s.backend) s) t
      → Kept (e.id ∷ ks) s t
  first-kept e w s t ks k = record {
    entities = λ j apart.
        let other : (e.id == j) ≡ false = ground (arith, apart) in
        rw (k.entities j (ground (arith, apart)), seen-put j e.id e s.backend.rules.entities, other)
          refl;
    settings = λ j apart.
        let other : (e.id == j) ≡ false = ground (arith, apart) in
        rw
          (
            k.settings j (ground (arith, apart)),
            seen-put j e.id (settings_of e.id w) s.ad_settings,
            other,
          )
          refl;
    definitions = k.definitions;
  }

  grown :
      (w : AdCreativeSpec) (account digits group : String) (ws : List AdCreativeSpec)
      (done : List OperationResource) (s : Operated D) {rs : List OperationResource}
      {t : Operated D}
      → let e : Entity D = created_entity account digits (ad_request group w) in
        AdsMade group ws (done ++ resource e ∷ []) (with_ad e.id w (with_entity e s.backend) s) rs t
        → AdsMade group (w ∷ ws) done s rs t
  unfolding resource created_entity
  grown w account digits group ws done s made =
      let e : Entity D = created_entity account digits (ad_request group w) in
      record {
        new = resource e ∷ made.new;
        listed = made.listed ∙ append_assoc done (resource e ∷ []) made.new;
        counted = omega (arith, made.counted);
        stand = λ apart. (
          new-stands group account digits w s _ (ids made.new) made.kept apart.0,
          made.stand apart.1,
        );
        kept = first-kept e w s _ (ids made.new) made.kept;
      }

  module _ (ended : ℕ → Bool) (drawn : ℕ → Option String) where
    -- The loop over the ads, when it creates all of them.
    pub create_ads-made :
        (n : ℕ) (group : String) (ws : List AdCreativeSpec) (done : List OperationResource)
        (s : Operated D) {rs : List OperationResource} {t : Operated D}
        → create_ads ended drawn n group ws done s ≡ (true, rs, t)
        → AdsMade group ws done s rs t
    unfolding create_ads resource created_entity
    create_ads-made n group [] done s h =
        let same : s ≡ _ = ap (λ p. p.2) h in
        record {
          new = [];
          listed = sym (ap (λ p. p.1) h) ∙ sym (append-nil done);
          counted = refl;
          stand = λ d. tt;
          kept =
              subst (Kept [] s) same
                (record { entities = λ k a. refl; settings = λ k a. refl; definitions = refl });
        }
    create_ads-made n group (w ∷ ws) done s {rs} {t} h =
        elim (Result-cases (create (ended n) (drawn n) (ad_request group w) s.backend)) [
          | inl (e, failed) ↦ let stops = ap (λ p. p.0) (rw (create_ads, failed) at h) in cc stops
          | inr ((e, b), made) ↦
              let (digits, is_e, is_b) =
                create-made (ended n) (drawn n) (ad_request group w) s.backend made in
              let rest =
                create_ads-made (suc n) group ws (done ++ resource e ∷ []) (with_ad e.id w b s)
                  (rw (create_ads, made) at h) in
              grown w s.backend.account.id digits group ws done s (rw (is_e, is_b) at rest)
        ]
