-- ===== src/Service/Perform/Sends.antt =====
-- Performing a claimed change leaves the tables alone and makes at most one mutating call, which is
-- for that change.
use ad_agent.Prelude.{String, Bool, true, false, Option, none, some}
use ad_agent.Prelude.Result.{Result, Check, ok, err}
use ad_agent.Ads.Decimal.{Decimal}
use ad_agent.Ads.Types.{Entity, CreateRequest}
use ad_agent.Ads.Operations.{OperationPlan, OperationOutcome}
use ad_agent.Ads.Change.{ChangeKind, create_change, operation_change, Change, Digests}
use ad_agent.Ads.Change.Policy.{Policy}
use ad_agent.Service.Exec.Ensures.{Ensures}
use ad_agent.Service.Platform.{Platform}
use ad_agent.Service.Limits.{Service}
use ad_agent.Service.Limits.Quiet.{validate_operation_policy-Quiet, nil_dereference-Quiet}
use ad_agent.Service.Sending.{
  Quiet, OneSend, attempt-Quiet, send-OneSend, Quiet-OneSend, OneSend-if, OneSend-pure, quiet_rules,
  Quiet-then_send, send_then-Quiet,
}
use ad_agent.Service.Perform.{
  settle_write, write_field, validated, revalidated, apply_field, settle_operation, send_operation,
  reprepared, apply_operation, settle_create, send_create, parent_unchanged, apply_create,
  perform_kind, perform,
}

module _ {D W : Type 0} ⦃p : Platform D W⦄ ⦃dec : Decimal D⦄ ⦃dig : Digests D⦄ where
  settle_write-Quiet :
      (c : Change D) (before after : Entity D) (state : String)
      → Ensures Quiet (settle_write {W = W} c before after state)
  unfolding settle_write
  settle_write-Quiet c before after state = search quiet_rules

  settle_operation-Quiet :
      (c : Change D) (plan : OperationPlan D) (o : OperationOutcome)
      → Ensures Quiet (settle_operation {W = W} c plan o)
  unfolding settle_operation
  settle_operation-Quiet c plan o = search quiet_rules depth 8

  settle_create-Quiet :
      (c : Change D) (r : Result (Entity D)) → Ensures Quiet (settle_create {W = W} c r)
  unfolding settle_create
  settle_create-Quiet c (ok e) = search quiet_rules
  settle_create-Quiet c (err x) = search quiet_rules

  write_field-OneSend :
      (s : Service D) (c : Change D) (before after current : Entity D)
      → Ensures (OneSend {W = W} c.id) (write_field s c before after current)
  unfolding write_field
  write_field-OneSend s c before after current =
      OneSend-if c.id _ _ _ (Quiet-OneSend c.id nil_dereference-Quiet) (
        send_then-Quiet c.id _ _ (send-OneSend c.id _ _)
          (λ o. settle_write-Quiet (record c { outcome = some o }) before after o.state))

  validated-OneSend :
      (s : Service D) (c : Change D) (before after current : Entity D) (r : Check)
      → Ensures (OneSend {W = W} c.id) (validated s c before after current r)
  unfolding validated
  validated-OneSend s c before after current (ok _) = write_field-OneSend s c before after current
  validated-OneSend s c before after current (err e) = OneSend-pure c.id _

  revalidated-OneSend :
      (s : Service D) (c : Change D) (before after : Entity D) (r : Result (Entity D))
      → Ensures (OneSend {W = W} c.id) (revalidated s c before after r)
  unfolding revalidated
  revalidated-OneSend s c before after (ok current) =
      OneSend-if c.id _ _ _ (OneSend-pure c.id _) (validated-OneSend s c before after current _)
  revalidated-OneSend s c before after (err e) = OneSend-pure c.id _

  apply_field-OneSend :
      (s : Service D) (c : Change D) (b a : Option (Entity D))
      → Ensures (OneSend {W = W} c.id) (apply_field s c b a)
  unfolding apply_field
  apply_field-OneSend s c (some before) (some after) =
      Quiet-then_send c.id _ _ (attempt-Quiet _) (revalidated-OneSend s c before after)
  apply_field-OneSend s c (some _) none = OneSend-pure c.id _
  apply_field-OneSend s c none _ = OneSend-pure c.id _

  send_operation-OneSend :
      (c : Change D) (plan : OperationPlan D) (r : Result (Unit {0}))
      → Ensures (OneSend {W = W} c.id) (send_operation c plan r)
  unfolding send_operation
  send_operation-OneSend c plan (ok _) =
      send_then-Quiet c.id _ _ (send-OneSend c.id _ _)
        (λ o. settle_operation-Quiet (record c { operation_outcome = some o }) plan o)
  send_operation-OneSend c plan (err e) = OneSend-pure c.id _

  reprepared-OneSend :
      (policy : Policy D) (c : Change D) (plan : OperationPlan D) (r : Result (OperationPlan D))
      → Ensures (OneSend {W = W} c.id) (reprepared policy c plan r)
  unfolding reprepared
  reprepared-OneSend policy c plan (ok prepared) = OneSend-if c.id _ _ _ (OneSend-pure c.id _) (
      Quiet-then_send c.id _ _ (validate_operation_policy-Quiet policy prepared.request)
        (send_operation-OneSend c prepared))
  reprepared-OneSend policy c plan (err e) = OneSend-pure c.id _

  apply_operation-OneSend :
      (s : Service D) (c : Change D) (plan : Option (OperationPlan D))
      → Ensures (OneSend {W = W} c.id) (apply_operation s c plan)
  unfolding apply_operation
  apply_operation-OneSend s c none = OneSend-pure c.id _
  apply_operation-OneSend s c (some plan) =
      OneSend-if c.id _ _ _ (OneSend-pure c.id _)
        (Quiet-then_send c.id _ _ (attempt-Quiet _) (reprepared-OneSend s.policy c plan))

  parent_unchanged-Quiet :
      (parent : Option (Entity D)) → Ensures Quiet (parent_unchanged {W = W} parent)
  unfolding parent_unchanged
  parent_unchanged-Quiet none = search quiet_rules
  parent_unchanged-Quiet (some parent) = search quiet_rules

  send_create-OneSend :
      (s : Service D) (c : Change D) (request : CreateRequest D) (b : Bool)
      → Ensures (OneSend {W = W} c.id) (send_create s c request b)
  unfolding send_create
  send_create-OneSend s c request true =
      OneSend-if c.id _ _ _ (Quiet-OneSend c.id nil_dereference-Quiet)
        (send_then-Quiet c.id _ _ (send-OneSend c.id _ _) (settle_create-Quiet c))
  send_create-OneSend s c request false = OneSend-pure c.id _

  apply_create-OneSend :
      (s : Service D) (c : Change D) (request : Option (CreateRequest D))
      → Ensures (OneSend {W = W} c.id) (apply_create s c request)
  unfolding apply_create
  apply_create-OneSend s c none = OneSend-pure c.id _
  apply_create-OneSend s c (some request) =
      Quiet-then_send c.id _ _ (parent_unchanged-Quiet c.parent) (send_create-OneSend s c request)

  perform_kind-OneSend :
      (k : ChangeKind) (s : Service D) (c : Change D)
      → Ensures (OneSend {W = W} c.id) (perform_kind k s c)
  unfolding perform_kind
  perform_kind-OneSend create_change s c = apply_create-OneSend s c c.create
  perform_kind-OneSend operation_change s c = apply_operation-OneSend s c c.operation
  perform_kind-OneSend _ s c = apply_field-OneSend s c c.before c.after

  pub perform-OneSend :
      (s : Service D) (c : Change D) → Ensures (OneSend {W = W} c.id) (perform s c)
  unfolding perform
  perform-OneSend s c = perform_kind-OneSend c.kind s c
