-- ===== src/Service/Settle/Settled.antt =====
-- How a Reconcile that succeeds ends.
use ad_agent.Prelude.{
  String, eq_iff, ◌≡◌, refl, ◌∙◌, ap, ◌⊎◌, inl, inr, Bool, true, false, Option, none, some, arith,
}
use ad_agent.Prelude.Result.{Result, ok, err}
use ad_agent.Ads.Types.{Entity}
use ad_agent.Ads.Operations.{OperationPlan, OperationOutcome}
use ad_agent.Ads.Change.{
  ChangeKind, create_change, operation_change, applying, applied, indeterminate, same_state,
  same_state_iff, ChangeState, Change, Digests,
}
use ad_agent.Service.Exec.{Exec, ◌>>=◌, ◌>>◌, fail, pure, reject}
use ad_agent.Service.Exec.Ensures.{Ensures}
use ad_agent.Service.Exec.Triple.{
  Triple, Post, Triple-result, Triple-pure, Triple-if, Triple-reject, Triple-bind, Triple-both,
  Triple-given, Triple-weaken,
}
use ad_agent.Service.Platform.{Platform, Env, ask, transition, fetch}
use ad_agent.Service.Perform.{marked}
use ad_agent.Service.Limits.{Service}
use ad_agent.Service.Sending.{Quiet, ask-Quiet, call-Quiet, attempt-Quiet}
use ad_agent.Service.Safety.{IsSound, Quiet-Preserves, transition-Preserves}
use ad_agent.Service.Stored.{Stored, Stored-same, Triple-Preserves, fetch-Stored, transition-Stored}
use ad_agent.Service.Settle.{
  may_be_active, resolve, interrupt, reconcile_operation, reconcile_create, reconcile_field,
  reconcile_kind, reconcile,
}

abbrev SameKey : {D : Type 0} → Change D → Change D → Type 0
SameKey c d = (d.id ≡ c.id) × (d.session_id ≡ c.session_id)

module _ {D W : Type 0} where
  abbrev Holds : Change D → Env D W → Type 0
  Holds c e = IsSound e × Stored c e

  -- `d` is the change `c` after it was observed: stored, and applied or still indeterminate.
  abbrev pub Settled : Change D → Change D → Env D W → Type 0
  Settled c d e =
      Stored d e
      × (d.id ≡ c.id)
      × (d.session_id ≡ c.session_id)
      × ((d.state ≡ applied) ⊎ (d.state ≡ indeterminate))

  Quiet-Holds :
      {A : Type 0} {m : Exec (Env D W) A} (c : Change D)
      → Ensures Quiet m
      → Triple (Holds c) m (λ a. Holds c)
  Quiet-Holds {m = m} c q = record {
    at = λ e h.
        held (m e).0 (m e).1 (((Quiet-Preserves q).at e).at h.0)
          (Stored-same (ap (λ t. t.changes) (q.at e).tables) h.1);
  }
    where
      held :
          {A : Type 0} (r : Result A) (e : Env D W)
          → IsSound e
          → Stored c e
          → Post (λ (a : A). Holds c) r e
      held (ok a) e s t = (s, t)
      held (err x) e s t = tt

module _ {D W : Type 0} ⦃p : Platform D W⦄ where
  transition-Holds :
      (from : ChangeState) (c : Change D)
      → Triple (IsSound {W = W}) (transition from c) (λ u. Holds c)
  transition-Holds from c =
      Triple-both (Triple-Preserves (transition-Preserves from c)) (transition-Stored from c)

  drop_held :
      {A : Type 0} {c : Change D} {m : Exec (Env D W) A} {Q : A → Env D W → Type 0}
      → Triple IsSound m Q
      → Triple (Holds c) m Q
  drop_held t = record { at = λ e h. t.at e h.0 }

  resolve-Settled :
      (b : Bool) (c : Change D) (note : String)
      → c.state ≡ indeterminate
      → Triple (Holds {W = W} c) (resolve b c note) (Settled c)
  unfolding resolve
  resolve-Settled false c note st = Triple-pure c (λ e h. (h.1, refl, refl, inr st))
  resolve-Settled true c note st =
      Triple-bind _ _ (drop_held (transition-Stored indeterminate (marked c applied note)))
        (λ u. Triple-pure _ (λ e h. (h, refl, refl, inl refl)))

  reconcile_operation-Settled :
      (s : Service D) (c : Change D) (plan : Option (OperationPlan D)) (o : Option OperationOutcome)
      → c.state ≡ indeterminate
      → Triple (Holds {W = W} c) (reconcile_operation s c plan o) (Settled c)
  unfolding reconcile_operation fail
  reconcile_operation-Settled s c (some plan) (some o) st =
      Triple-reject _ _ _
        (λ _. Triple-bind _ _ (Quiet-Holds c (call-Quiet _)) (λ b. resolve-Settled b c _ st))
  reconcile_operation-Settled s c (some plan) none st = record { at = λ e h. tt }
  reconcile_operation-Settled s c none o st = record { at = λ e h. tt }

module _ {D W : Type 0} ⦃p : Platform D W⦄ ⦃dig : Digests D⦄ where
  reconcile_create-Settled :
      (c : Change D) (created : Option (Entity D))
      → c.state ≡ indeterminate
      → Triple (Holds {W = W} c) (reconcile_create c created) (Settled c)
  unfolding reconcile_create fail
  reconcile_create-Settled c none st = record { at = λ e h. tt }
  reconcile_create-Settled c (some x) st =
      Triple-bind _ _ (Quiet-Holds c (attempt-Quiet _)) (λ r. resolve-Settled _ c _ st)

  reconcile_field-Settled :
      (c : Change D) (before after : Option (Entity D))
      → c.state ≡ indeterminate
      → Triple (Holds {W = W} c) (reconcile_field c before after) (Settled c)
  unfolding reconcile_field fail
  reconcile_field-Settled c (some b) (some a) st =
      Triple-bind _ _ (Quiet-Holds c (call-Quiet _)) (λ x. resolve-Settled _ c _ st)
  reconcile_field-Settled c (some b) none st = record { at = λ e h. tt }
  reconcile_field-Settled c none a st = record { at = λ e h. tt }

  reconcile_kind-Settled :
      (k : ChangeKind) (s : Service D) (c : Change D)
      → c.state ≡ indeterminate
      → Triple (Holds {W = W} c) (reconcile_kind k s c) (Settled c)
  unfolding reconcile_kind
  reconcile_kind-Settled create_change s c st = reconcile_create-Settled c c.created st
  reconcile_kind-Settled operation_change s c st =
      reconcile_operation-Settled s c c.operation c.operation_outcome st
  reconcile_kind-Settled _ s c st = reconcile_field-Settled c c.before c.after st

  -- The change that is looked at is stored, and is the one that was asked for.
  abbrev Same : Change D → Change D → Env D W → Type 0
  Same c d e = Holds d e × SameKey c d

  interrupt-Same : (c : Change D) → Triple (Holds {W = W} c) (interrupt c) (Same c)
  unfolding interrupt
  interrupt-Same c =
      let cut = marked c indeterminate "interrupted execution; request may have been sent" in
      let interrupted : Exec (Env D W) (Change D) = do
        now ← ask p.now
        reject (may_be_active now c.approved_at) "execution_may_be_active"
        transition applying cut
        pure cut
      in Triple-if (same_state c.state applying) interrupted (pure c)
        (λ _. Triple-bind (ask p.now) _ (Quiet-Holds c (ask-Quiet p.now)) (λ now.
          Triple-reject (may_be_active now c.approved_at) "execution_may_be_active" _ (λ _.
            Triple-bind (transition applying cut) _ (drop_held (transition-Holds applying cut))
              (λ u. Triple-pure cut (λ e h. (h, (refl, refl)))))))
        (λ _. Triple-pure c (λ e h. (h, (refl, refl))))

  fetch-Holds :
      (id : String) → Triple (IsSound {D = D} {W = W}) (fetch id) (λ c e. Holds c e × (c.id ≡ id))
  fetch-Holds id = Triple-weaken (λ c e h. ((h.0, h.1), h.2)) (fetch-Stored id)

  -- A change of an id and a session as it is stored, applied or still indeterminate.
  abbrev pub Reconciled : String → String → Change D → Env D W → Type 0
  Reconciled session_id id d e =
      Stored d e
      × (d.id ≡ id)
      × (d.session_id ≡ session_id)
      × ((d.state ≡ applied) ⊎ (d.state ≡ indeterminate))

  reconcile-Reconciled :
      (s : Service D) (session_id id : String)
      → Triple (IsSound {W = W}) (reconcile s session_id id) (Reconciled session_id id)
  unfolding reconcile
  reconcile-Reconciled s session_id id = Triple-bind _ _ (fetch-Holds id) (λ c. Triple-given (λ key.
      Triple-reject _ _ _ (λ own. Triple-bind _ _ (Quiet-Holds c (call-Quiet _)) (λ a.
        Triple-reject _ _ _ (λ source. Triple-bind _ _ (interrupt-Same c) (λ d.
          Triple-given {P = Holds d} {F = SameKey c d} (λ same. Triple-reject _ _ _ (λ state.
            Triple-weaken
              (λ x e h. (
                h.0,
                h.1 ∙ same.0 ∙ key,
                h.2 ∙ same.1 ∙ ground (arith, own, eq_iff c.session_id session_id),
                h.3,
              ))
              (reconcile_kind-Settled d.kind s d
                (ground (arith, state, same_state_iff d.state indeterminate)))))))))))

  -- From a sound state, a Reconcile that returns a change and no error returns the change of that id
  -- and session as the store then holds it, applied or still indeterminate.
  pub reconcile-stores :
      (s : Service D) (session_id id : String) (e : Env D W) {d : Change D}
      → IsSound e
      → (reconcile s session_id id e).0 ≡ ok d
      → Reconciled session_id id d (reconcile s session_id id e).1
  reconcile-stores s session_id id e h eq =
      Triple-result (Reconciled session_id id) (reconcile-Reconciled s session_id id) e h eq
