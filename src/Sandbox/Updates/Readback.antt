-- ===== src/Sandbox/Updates/Readback.antt =====
-- internal/sandbox/operations.go and operation_readback.go: ReconcileOperation of the update of an ad
-- group. The review that reviewMatches compares is taken field by field: a field that is requested,
-- and no other, must be as requested.
use ad_agent.Prelude.{
  ℕ, suc, String, ◌==◌, Bool, true, false, not, ◌&&◌, ◌||◌, Option, none, some, List, [], ◌∷◌,
  length, eqb, if◌then◌else◌,
}
use ad_agent.Prelude.Result.{Result, ok, err, refuse, ◌>>=◌, ◌>>◌}
use ad_agent.Ads.Types.{campaign, ad_group, Entity}
use ad_agent.Ads.Operations.{
  AdGroupUpdateSpec, AdCreativeUpdateSpec, OperationResource, OperationOutcome,
}
use ad_agent.Store.Session.{seen}
use ad_agent.Sandbox.Backend.{context_error, get}
use ad_agent.Sandbox.Bundle.{Operated}
use ad_agent.Sandbox.Bundle.Readback.{JsonTexts}

-- A requested field against the current one; JSON leaves an empty field of a request out.
abbrev pub text_matches : String → String → Bool
text_matches new now = new == "" || now == new

abbrev pub same_texts : List String → List String → Bool
same_texts [] [] = true
same_texts (x ∷ xs) (y ∷ ys) = x == y && same_texts xs ys
same_texts _ _ = false

abbrev pub list_matches : List String → List String → Bool
list_matches [] now = true
list_matches (x ∷ xs) now = same_texts now (x ∷ xs)

-- reviewMatches on the settings of an ad
unfoldable pub creative_matches : AdCreativeUpdateSpec → AdCreativeUpdateSpec → Bool
creative_matches new now =
    now.ad_id == new.ad_id
    && text_matches new.identity_id now.identity_id
    && text_matches new.identity_type now.identity_type
    && text_matches new.asset_id now.asset_id
    && text_matches new.asset_kind now.asset_kind
    && text_matches new.primary_text now.primary_text
    && text_matches new.call_to_action now.call_to_action
    && text_matches new.destination_url now.destination_url

-- The keys of OperationState that an update of an ad group only reads.
pub record OtherKeys : Type 0 where
  pub has_comment : String → Bool
  pub has_audience : String → Bool
  pub has_rule : String → Bool

abbrev pub is_found : {A : Type 0} → Result A → Bool
is_found (ok e) = true
is_found (err e) = false

-- A key that is not there is enough for an answer; the value of one that is there is compared with
-- the request's payload, a nil dereference.
abbrev pub compared_with_nil : Bool → Result Bool
compared_with_nil true = err "invalid memory address or nil pointer dereference"
compared_with_nil false = ok false

-- The loop stops at the first resource that does not stand.
abbrev pub go_on : Bool → Result Bool → Result Bool
go_on true rest = rest
go_on false rest = ok false

module _ {D : Type 0} (texts : JsonTexts D) where
  abbrev pub amount_matches : Option D → Option D → Bool
  amount_matches none now = true
  amount_matches (some v) none = false
  amount_matches (some v) (some w) = texts.amount_text w == texts.amount_text v

  -- reviewMatches on the settings of an ad group
  unfoldable pub group_matches : AdGroupUpdateSpec D → AdGroupUpdateSpec D → Bool
  group_matches new now =
      now.ad_group_id == new.ad_group_id
      && amount_matches new.budget now.budget
      && amount_matches new.bid now.bid
      && text_matches new.schedule_start now.schedule_start
      && text_matches new.schedule_end now.schedule_end
      && list_matches new.placements now.placements
      && list_matches new.audience_ids now.audience_ids
      && list_matches new.excluded_audience_ids now.excluded_audience_ids
      && list_matches new.location_ids now.location_ids
      && list_matches new.languages now.languages

  unfoldable pub settings_match :
      AdGroupUpdateSpec D → Entity D → Option (AdGroupUpdateSpec D) → Bool
  unfolding group_matches
  settings_match v e none = false
  settings_match v e (some now) = group_matches v (record now { budget = e.budget })

  -- The case "ad_group" of ReconcileOperation, for an update.
  unfoldable pub group_confirmed :
      Bool → AdGroupUpdateSpec D → OperationResource → Operated D → Bool
  unfolding settings_match
  group_confirmed cancelled v r s = elim (get cancelled ad_group r.id s.backend) [
    | err e ↦ false
    | ok e ↦ r.id == v.ad_group_id && settings_match v e (seen r.id s.group_settings)
  ]

  -- The cases of the other kinds: the update of an ad group has no payload for them, so that an ad
  -- or an event source is not confirmed, and an audience or a rule that is there is compared with nil.
  unfoldable pub other_stands : OtherKeys → Bool → OperationResource → Operated D → Result Bool
  other_stands keys cancelled r s =
      if r.kind == "campaign"
      then ok (is_found (get cancelled campaign r.id s.backend))
      else if r.kind == "audience"
      then compared_with_nil (keys.has_audience r.id)
      else if r.kind == "automated_rule"
      then compared_with_nil (keys.has_rule r.id)
      else ok (r.kind == "comment" && keys.has_comment r.id)

  -- The loop over the resources, where `ended n` says whether the context has ended at the n-th.
  unfoldable pub resources_stand :
      OtherKeys
      → (ℕ → Bool)
      → ℕ
      → AdGroupUpdateSpec D
      → List OperationResource
      → Operated D
      → Result Bool
  unfolding group_confirmed other_stands
  resources_stand keys ended n v [] s = ok true
  resources_stand keys ended n v (r ∷ rs) s = do
    stands ←
        if r.kind == "ad_group"
        then ok (group_confirmed (ended n) v r s)
        else other_stands keys (ended n) r s
    go_on stands (resources_stand keys ended (suc n) v rs s)

  -- ReconcileOperation of the update of an ad group.
  unfoldable pub reconcile_group :
      OtherKeys → (ℕ → Bool) → AdGroupUpdateSpec D → OperationOutcome → Operated D → Result Bool
  unfolding resources_stand
  reconcile_group keys ended v o s = do
    refuse (ended 0) context_error
    if not (o.state == "acknowledged") || eqb (length o.resources) 0
        then ok false
        else resources_stand keys ended 1 v o.resources s
