-- ===== src/Service/Perform/Outcome.antt =====
-- Performing a claimed change ends, unless it comes to a nil dereference, with the same change in one
-- of the states that a transition from `applying` may reach.
use ad_agent.Prelude.{String, ◌≡◌, refl, ◌∙◌, not, Bool, true, false, Option, none, some, arith}
use ad_agent.Prelude.Result.{Result, Check, ok, err}
use ad_agent.Ads.Decimal.{Decimal}
use ad_agent.Ads.Types.{Entity, CreateRequest}
use ad_agent.Ads.Operations.{OperationRequest, OperationPlan, OperationOutcome}
use ad_agent.Ads.Change.{
  ChangeKind, create_change, operation_change, applying, failed, indeterminate, can_transition,
  Change, Digests,
}
use ad_agent.Ads.Change.Policy.{Policy}
use ad_agent.Service.Limits.Returns.{
  lacks_payload, Answer, attempt_done, nil_dereference_done, validate_operation_policy_done,
}
use ad_agent.Service.Apply.{lacks_writer}
use ad_agent.Service.Exec.{pure}
use ad_agent.Service.Exec.Completes.{
  Completes, Completes-pure, Completes-if, Completes-when, Completes-bind,
}
use ad_agent.Service.Platform.{Platform, Env, Mutation, send}
use ad_agent.Service.Limits.{Service}
use ad_agent.Service.Perform.{
  marked, settle_write, write_field, validated, revalidated, apply_field, settle_operation,
  send_operation, reprepared, apply_operation, settle_create, send_create, parent_unchanged,
  apply_create, perform_kind, perform,
}

module _ {D : Type 0} where
  -- `d` is the change `c` after its execution.
  abbrev pub Outcome : Change D → Change D → Type 0
  Outcome c d =
      (d.id ≡ c.id)
      × (d.session_id ≡ c.session_id)
      × (d.approved_by ≡ c.approved_by)
      × (can_transition applying d.state ≡ true)

-- A plan that the backend answers to some request in some world.
abbrev pub CanPrepare : {D : Type 0} (W : Type 0) ⦃p : Platform D W⦄ → OperationPlan D → Type 0
CanPrepare {D} W ⦃p = p⦄ q =
    (r : OperationRequest D) × Answer {W = W} (p.prepare_operation r) (ok q)

module _ {D W A E : Type 0} where
  send_done :
      (id : String) (m : Mutation D) (f : W → A × W)
      → Completes {S = Env D W} E (λ (a : A). Unit {0}) (send id m f)
  unfolding send
  send_done id m f = record { at = λ s. tt }

module _ {D W E : Type 0} where
  end : (c d : Change D) → Outcome c d → Completes {S = Env D W} E (Outcome c) (pure d)
  end c d h = Completes-pure d h

module _ {D W E : Type 0} ⦃p : Platform D W⦄ ⦃dec : Decimal D⦄ ⦃dig : Digests D⦄ where
  settle_write_done :
      (c : Change D) (before after : Entity D) (state : String)
      → Completes {S = Env D W} E (Outcome c) (settle_write c before after state)
  unfolding settle_write can_transition
  settle_write_done c before after state = Completes-if _ _ _ (end c _ (ground arith)) (
      Completes-if _ _ _ (Completes-bind _ _ (attempt_done _) (λ r _. end c _ (ground arith)))
        (end c _ (ground arith)))

  write_field_done :
      (s : Service D) (c : Change D) (before after current : Entity D)
      → (not s.has_writer ≡ true → E)
      → Completes {S = Env D W} E (Outcome c) (write_field s c before after current)
  unfolding write_field
  write_field_done s c before after current h =
      Completes-when _ _ _ (λ lacks. nil_dereference_done (h lacks))
        (Completes-bind _ _ (send_done c.id _ _)
          (λ o _. settle_write_done (record c { outcome = some o }) before after o.state))

  validated_done :
      (s : Service D) (c : Change D) (before after current : Entity D) (r : Check)
      → (not s.has_writer ≡ true → E)
      → Completes {S = Env D W} E (Outcome c) (validated s c before after current r)
  unfolding validated can_transition
  validated_done s c before after current (ok _) h = write_field_done s c before after current h
  validated_done s c before after current (err e) h = end c _ (ground arith)

  revalidated_done :
      (s : Service D) (c : Change D) (before after : Entity D) (r : Result (Entity D))
      → (not s.has_writer ≡ true → E)
      → Completes {S = Env D W} E (Outcome c) (revalidated s c before after r)
  unfolding revalidated can_transition
  revalidated_done s c before after (err _) h = end c _ (ground arith)
  revalidated_done s c before after (ok current) h =
      Completes-if _ _ _ (end c _ (ground arith)) (validated_done s c before after current _ h)

  apply_field_done :
      (s : Service D) (c : Change D) (b a : Option (Entity D))
      → (not s.has_writer ≡ true → E)
      → Completes {S = Env D W} E (Outcome c) (apply_field s c b a)
  unfolding apply_field can_transition
  apply_field_done s c (some before) (some after) h =
      Completes-bind _ _ (attempt_done _) (λ r _. revalidated_done s c before after r h)
  apply_field_done s c (some _) none h = end c _ (ground arith)
  apply_field_done s c none _ h = end c _ (ground arith)

  settle_operation_done :
      (c : Change D) (plan : OperationPlan D) (o : OperationOutcome)
      → Completes {S = Env D W} E (Outcome c) (settle_operation c plan o)
  unfolding settle_operation can_transition
  settle_operation_done c plan o =
      Completes-if _ _ _ (end c (record c { state = failed }) (ground arith)) (
        Completes-if _ _ _ (Completes-bind _ _ (attempt_done _) (λ r _. end c _ (ground arith))) (
          Completes-if _ _ _
            (end c (marked c indeterminate "operation partially completed; no automatic retry")
              (ground arith))
            (end c (marked c indeterminate "remote outcome unknown; no automatic retry")
              (ground arith))))

  send_operation_done :
      (c : Change D) (plan : OperationPlan D) (r : Check)
      → Completes {S = Env D W} E (Outcome c) (send_operation c plan r)
  unfolding send_operation can_transition
  send_operation_done c plan (ok _) =
      Completes-bind _ _ (send_done c.id _ _)
        (λ o _. settle_operation_done (record c { operation_outcome = some o }) plan o)
  send_operation_done c plan (err e) = end c _ (ground arith)

  reprepared_done :
      (policy : Policy D) (c : Change D) (plan : OperationPlan D) (r : Result (OperationPlan D))
      → ((q : OperationPlan D) → r ≡ ok q → lacks_payload q.request.kind q.request ≡ true → E)
      → Completes {S = Env D W} E (Outcome c) (reprepared policy c plan r)
  unfolding reprepared can_transition
  reprepared_done policy c plan (err _) h = end c _ (ground arith)
  reprepared_done policy c plan (ok prepared) h = Completes-if _ _ _ (end c _ (ground arith)) (
      Completes-bind _ _ (validate_operation_policy_done policy prepared.request (h prepared refl))
        (λ r _. send_operation_done c prepared r))

  apply_operation_done :
      (s : Service D) (c : Change D) (plan : Option (OperationPlan D))
      → ((q : OperationPlan D) → CanPrepare W q → lacks_payload q.request.kind q.request ≡ true → E)
      → Completes {S = Env D W} E (Outcome c) (apply_operation s c plan)
  unfolding apply_operation can_transition
  apply_operation_done s c none h = end c _ (ground arith)
  apply_operation_done s c (some plan) h = Completes-if _ _ _ (end c _ (ground arith)) (
      Completes-bind _ _ (attempt_done _) (λ r a.
        reprepared_done s.policy c plan r (λ q same. h q (plan.request, (a.0, a.1 ∙ same)))))

  settle_create_done :
      (c : Change D) (r : Result (Entity D))
      → Completes {S = Env D W} E (Outcome c) (settle_create c r)
  unfolding settle_create can_transition
  settle_create_done c (ok e) = Completes-bind _ _ (attempt_done _) (λ r _. end c _ (ground arith))
  settle_create_done c (err x) = end c _ (ground arith)

  parent_unchanged_done :
      (parent : Option (Entity D))
      → Completes {S = Env D W} E (λ (b : Bool). Unit {0}) (parent_unchanged parent)
  unfolding parent_unchanged
  parent_unchanged_done none = Completes-pure true tt
  parent_unchanged_done (some e) = Completes-bind _ _ (attempt_done _) (λ r _. Completes-pure _ tt)

  send_create_done :
      (s : Service D) (c : Change D) (request : CreateRequest D) (b : Bool)
      → (not s.has_creator ≡ true → E)
      → Completes {S = Env D W} E (Outcome c) (send_create s c request b)
  unfolding send_create can_transition
  send_create_done s c request true h =
      Completes-when _ _ _ (λ lacks. nil_dereference_done (h lacks))
        (Completes-bind _ _ (send_done c.id _ _) (λ r _. settle_create_done c r))
  send_create_done s c request false h = end c _ (ground arith)

  apply_create_done :
      (s : Service D) (c : Change D) (request : Option (CreateRequest D))
      → (not s.has_creator ≡ true → E)
      → Completes {S = Env D W} E (Outcome c) (apply_create s c request)
  unfolding apply_create can_transition
  apply_create_done s c none h = end c _ (ground arith)
  apply_create_done s c (some request) h =
      Completes-bind _ _ (parent_unchanged_done c.parent) (λ b _. send_create_done s c request b h)

  perform_kind_done :
      (k : ChangeKind) (s : Service D) (c : Change D)
      → (lacks_writer s k ≡ true → E)
      → ((q : OperationPlan D) → CanPrepare W q → lacks_payload q.request.kind q.request ≡ true → E)
      → Completes {S = Env D W} E (Outcome c) (perform_kind k s c)
  unfolding perform_kind
  perform_kind_done create_change s c w h = apply_create_done s c c.create w
  perform_kind_done operation_change s c w h = apply_operation_done s c c.operation h
  perform_kind_done _ s c w h = apply_field_done s c c.before c.after w

module _ {D W : Type 0} ⦃p : Platform D W⦄ ⦃dec : Decimal D⦄ ⦃dig : Digests D⦄ where
  -- Where it returns, and nothing of an execution that does not.
  pub perform_done :
      (s : Service D) (c : Change D) → Completes {S = Env D W} (Unit {0}) (Outcome c) (perform s c)
  unfolding perform
  perform_done s c = perform_kind_done c.kind s c (λ h. tt) (λ q k h. tt)

  -- The execution of a claimed change returns from every state, whatever the backend answers, if
  -- the service has the writer that the kind of the change needs and an operation that the backend
  -- has prepared carries the payload of its kind: with the change of the same id, session and
  -- approver, in a state that the machine allows after `applying`.
  pub perform-Outcome :
      (s : Service D) (c : Change D)
      → lacks_writer s c.kind ≡ false
      → ((q : OperationPlan D) → CanPrepare W q → lacks_payload q.request.kind q.request ≡ false)
      → Completes {S = Env D W} ⊥ (Outcome c) (perform s c)
  unfolding perform
  perform-Outcome s c writer carries =
      perform_kind_done c.kind s c (λ lacks. cc (writer, lacks))
        (λ q prepared lacks. let has = carries q prepared in cc (has, lacks))
