-- ===== src/Sandbox/Updates/Confirmed.antt =====
-- internal/sandbox/operations.go: the readback of updates.
use ad_agent.Prelude.{
  String, ◌==◌, eq_iff, eq_refl, ◌≡◌, refl, ap, ◌∙◌, Bool, true, false, not, ◌&&◌, ◌||◌, Option,
  none, some, List, [], ◌∷◌, if◌then◌else◌, arith, Bool-cases, Option-cases, inl, inr,
}
use ad_agent.Prelude.Result.{ok, ok-injective}
use ad_agent.Ads.Decimal.{Decimal, is_negative}
use ad_agent.Ads.Types.{WriteRequest, ad_group, ad, same_level, Entity}
use ad_agent.Ads.Operations.{AdGroupUpdateSpec, AdCreativeUpdateSpec}
use ad_agent.Ads.Change.{Digests}
use ad_agent.Store.Session.{seen}
use ad_agent.Sandbox.Evaluate.Limits.{seen-put}
use ad_agent.Sandbox.Backend.{
  Backend, get, write, with_entity, stored, outcome, written_entity, written_budget,
}
use ad_agent.Sandbox.Bundle.{Operated}
use ad_agent.Sandbox.Bundle.Readback.{JsonTexts}
use ad_agent.Sandbox.Updates.{
  text_or, list_or, value_or, merge_ad_group, merge_ad_creative, settings_or_none, merged_group,
}
use ad_agent.Sandbox.Updates.Readback.{
  OtherKeys, text_matches, same_texts, list_matches, amount_matches, creative_matches,
  group_matches, settings_match, group_confirmed, resources_stand, reconcile_group,
}

text_or-matches : (new old : String) → text_matches new (text_or new old) ≡ true
text_or-matches new old = ground (arith, eq_refl new)

same_texts_refl : (l : List String) → same_texts l l ≡ true
same_texts_refl [] = refl
same_texts_refl (x ∷ xs) = ground (arith, eq_refl x, same_texts_refl xs)

list_or-matches : (new old : List String) → list_matches new (list_or new old) ≡ true
list_or-matches [] old = refl
list_or-matches (x ∷ xs) old = same_texts_refl (x ∷ xs)

-- The kind that comes with an id: it is merged only when the id is requested too.
abbrev pub kind_matches : String → String → String → Bool
kind_matches id kind old = not (id == "") || text_matches kind old

kind-matches :
    (id kind old : String)
    → text_matches kind (if id == "" then old else kind) ≡ kind_matches id kind old
kind-matches id kind old = ground (arith, eq_refl kind)

-- The settings of an ad, after an update of them, are as requested exactly if a type of identity that
-- is requested without an identity is the one that was there, and the same for the kind of an asset.
pub merge_ad_creative-matches :
    (old new : AdCreativeUpdateSpec)
    → creative_matches new (merge_ad_creative old new) ≡ (
        kind_matches new.identity_id new.identity_type old.identity_type
        && kind_matches new.asset_id new.asset_kind old.asset_kind)
unfolding creative_matches merge_ad_creative
merge_ad_creative-matches old new =
    rw
      (
        eq_refl new.ad_id,
        text_or-matches new.identity_id old.identity_id,
        text_or-matches new.asset_id old.asset_id,
        text_or-matches new.primary_text old.primary_text,
        text_or-matches new.call_to_action old.call_to_action,
        text_or-matches new.destination_url old.destination_url,
        kind-matches new.identity_id new.identity_type old.identity_type,
        kind-matches new.asset_id new.asset_kind old.asset_kind,
      )
      (ground arith)

module _ {D : Type 0} (texts : JsonTexts D) where
  value_or-matches : (new old : Option D) → amount_matches texts new (value_or new old) ≡ true
  value_or-matches none old = refl
  value_or-matches (some v) old = eq_refl (texts.amount_text v)

  merge_ad_group-matches :
      (old new : AdGroupUpdateSpec D) (budget : Option D)
      → amount_matches texts new.budget budget ≡ true
      → group_matches texts new (record (merge_ad_group old new) { budget = budget }) ≡ true
  unfolding group_matches merge_ad_group
  merge_ad_group-matches old new budget h =
      rw
        (
          eq_refl new.ad_group_id,
          h,
          value_or-matches new.bid old.bid,
          text_or-matches new.schedule_start old.schedule_start,
          text_or-matches new.schedule_end old.schedule_end,
          list_or-matches new.placements old.placements,
          list_or-matches new.audience_ids old.audience_ids,
          list_or-matches new.excluded_audience_ids old.excluded_audience_ids,
          list_or-matches new.location_ids old.location_ids,
          list_or-matches new.languages old.languages,
        )
        refl

  pub merged_group-confirmed :
      (keys : OtherKeys) (v : AdGroupUpdateSpec D) (s : Operated D) (e : Entity D)
      → get false ad_group v.ad_group_id s.backend ≡ ok e
      → amount_matches texts v.budget e.budget ≡ true
      → reconcile_group texts keys (λ n. false) v (merged_group v s).0 (merged_group v s).1
        ≡ ok true
  unfolding reconcile_group resources_stand group_confirmed settings_match merged_group
  merged_group-confirmed keys v s e found h =
      let old = settings_or_none (seen v.ad_group_id s.group_settings) in
      let new = merge_ad_group old v in
      rw
        (
          merged_group,
          reconcile_group,
          resources_stand,
          group_confirmed,
          found,
          seen-put v.ad_group_id v.ad_group_id new s.group_settings,
          eq_refl v.ad_group_id,
          settings_match,
          merge_ad_group-matches old v e.budget h,
        )
        refl

module _ {D : Type 0} ⦃dec : Decimal D⦄ ⦃dig : Digests D⦄ where
  abbrev pub budget_write : D → Entity D → WriteRequest D
  budget_write amount e = record { target = e; kind = "budget"; budget = some amount; status = "" }

  written_budget-stores :
      (amount : D) (e : Entity D) (b : Backend D)
      → (stored (written_budget (some amount) e) b).0.state ≡ "acknowledged"
      → (stored (written_budget (some amount) e) b).1
        ≡ with_entity (record e { budget = some amount }) b
  unfolding stored outcome written_budget
  written_budget-stores amount e b h =
      elim (Bool-cases (same_level e.level ad || is_negative amount)) [
        | inl refused ↦ let stops = rw refused at h in cc stops
        | inr accepted ↦ rw accepted refl
      ]

  pub write-stores :
      (amount : D) (e : Entity D) (b : Backend D)
      → seen e.id b.rules.entities ≡ some e
      → (write false (budget_write amount e) b).0.state ≡ "acknowledged"
      → (write false (budget_write amount e) b).1
        ≡ with_entity (record e { budget = some amount }) b
  unfolding write written_entity
  write-stores amount e b at h =
      rw (write, at, eq_refl (dig.entity_version e), written_entity)
        (written_budget-stores amount e b
          (rw (write, at, eq_refl (dig.entity_version e), written_entity) at h))

  pub get-parts :
      (id : String) (b : Backend D) {e : Entity D}
      → get false ad_group id b ≡ ok e
      → (seen id b.rules.entities ≡ some e) × (same_level e.level ad_group ≡ true)
  unfolding get
  get-parts id b h = elim (Option-cases (seen id b.rules.entities)) [
    | inl gone ↦ let stops = rw gone at h in cc stops
    | inr (f, found) ↦ elim (Bool-cases (same_level f.level ad_group)) [
      | inr other ↦ let stops = rw (found, other) at h in cc stops
      | inl group ↦
          let same = ok-injective (rw (found, group) at h) in
          (found ∙ ap some same, rw (← same) group)
    ]
  ]

  pub get-budgeted :
      (id : String) (amount : D) (e : Entity D) (b : Backend D)
      → same_level e.level ad_group ≡ true
      → e.id ≡ id
      → get false ad_group id (with_entity (record e { budget = some amount }) b)
        ≡ ok (record e { budget = some amount })
  unfolding get
  get-budgeted id amount e b level named =
      let same : (e.id == id) ≡ true = (eq_iff e.id id).1 named in
      rw (seen-put id e.id (record e { budget = some amount }) b.rules.entities, same, level) refl
