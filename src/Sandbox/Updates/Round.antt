-- ===== src/Sandbox/Updates/Round.antt =====
-- internal/sandbox/operations.go: the round from ApplyOperation to ReconcileOperation of an update of
-- an ad group.
use ad_agent.Prelude.{
  ◌==◌, eq_iff, eq_refl, ◌≡◌, refl, ap, ◌∙◌, true, false, Option, none, some, Bool-cases, inl, inr,
}
use ad_agent.Prelude.Result.{ok}
use ad_agent.Ads.Decimal.{Decimal}
use ad_agent.Ads.Types.{ad_group, Entity, WriteOutcome}
use ad_agent.Ads.Operations.{AdGroupUpdateSpec, OperationOutcome}
use ad_agent.Ads.Change.{Digests}
use ad_agent.Store.Session.{seen}
use ad_agent.Sandbox.Backend.{Backend, get, write}
use ad_agent.Sandbox.Bundle.{Operated}
use ad_agent.Sandbox.Bundle.Readback.{JsonTexts}
use ad_agent.Sandbox.Updates.{after_budget, apply_group_update}
use ad_agent.Sandbox.Updates.Readback.{OtherKeys, amount_matches, reconcile_group}
use ad_agent.Sandbox.Updates.Confirmed.{
  budget_write, write-stores, get-parts, get-budgeted, merged_group-confirmed,
}

module _ {D : Type 0} (texts : JsonTexts D) (keys : OtherKeys) ⦃dec : Decimal D⦄
    ⦃dig : Digests D⦄ where
  abbrev Confirms : AdGroupUpdateSpec D → OperationOutcome × Operated D → Type 0
  Confirms v x =
      x.0.state ≡ "acknowledged" → reconcile_group texts keys (λ n. false) v x.0 x.1 ≡ ok true

  after_budget-Confirms :
      (v : AdGroupUpdateSpec D) (s : Operated D) (e : Entity D) (o : WriteOutcome) (b : Backend D)
      → (o.state ≡ "acknowledged"
          → (get false ad_group v.ad_group_id b ≡ ok e)
            × (amount_matches texts v.budget e.budget ≡ true))
      → Confirms v (after_budget v s (o, b))
  unfolding after_budget
  after_budget-Confirms v s e o b h = elim (Bool-cases (o.state == "acknowledged")) [
    | inl yes_sent ↦
        let (found, right) = h ((eq_iff o.state "acknowledged").0 yes_sent) in
        rw (after_budget, yes_sent)
          (λ state. merged_group-confirmed texts keys v (record s { backend = b }) e found right)
    | inr other ↦
        rw (after_budget, other)
          (λ state. let stops = rw (state, eq_refl "acknowledged") at other in cc stops)
  ]

  update-Confirms :
      (w : AdGroupUpdateSpec D) (budget : Option D) (s : Operated D) {e : Entity D}
      → get false ad_group w.ad_group_id s.backend ≡ ok e
      → e.id ≡ w.ad_group_id
      → let v : AdGroupUpdateSpec D = record w { budget = budget } in
        Confirms v (apply_group_update (λ n. false) v s)
  unfolding apply_group_update
  update-Confirms w none s {e} found named =
      let v : AdGroupUpdateSpec D = record w { budget = none } in
      λ state. merged_group-confirmed texts keys v s e found refl
  update-Confirms w (some amount) s {e} found named =
      let v : AdGroupUpdateSpec D = record w { budget = some amount } in
      let (at, level) = get-parts w.ad_group_id s.backend found in
      let wrote = write false (budget_write amount e) s.backend in
      rw (apply_group_update, found)
        (after_budget-Confirms v s (record e { budget = some amount }) wrote.0 wrote.1
          (λ state. (
            rw
                (write-stores amount e s.backend
                  (ap (λ k. seen k s.backend.rules.entities) named ∙ at) state)
                (get-budgeted w.ad_group_id amount e s.backend level named),
            eq_refl (texts.amount_text amount),
          )))

  -- An update of an ad group that the backend acknowledges, budget included, is reported by a
  -- reconciliation at once as standing, if the ad group was there under its own id and the caller's
  -- context does not end.
  pub apply_group_update-confirmed :
      (v : AdGroupUpdateSpec D) (s : Operated D) {e : Entity D}
      → get false ad_group v.ad_group_id s.backend ≡ ok e
      → e.id ≡ v.ad_group_id
      → (apply_group_update (λ n. false) v s).0.state ≡ "acknowledged"
      → reconcile_group texts keys
          (λ n. false)
          v
          (apply_group_update (λ n. false) v s).0
          (apply_group_update (λ n. false) v s).1
        ≡ ok true
  apply_group_update-confirmed v s found named = update-Confirms v v.budget s found named
