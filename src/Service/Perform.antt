-- ===== src/Service/Perform.antt =====
-- internal/agenthost/changes.go: the part of Apply that runs between the claim of a change and the
-- record of its result: applyCreate, applyOperation, and the write of a budget or a status.
pub mod Sends
pub mod Outcome
use ad_agent.Prelude.{
  String, ◌==◌, Bool, true, false, not, ◌&&◌, ◌||◌, Option, none, some, if◌then◌else◌,
}
use Prim.Native.String.{◌++◌}
use ad_agent.Prelude.Result.{Result, Check, ok, err}
use ad_agent.Ads.Decimal.{Decimal}
use ad_agent.Ads.Types.{Entity, WriteRequest, WriteOutcome, CreateRequest}
use ad_agent.Ads.Operations.{OperationPlan, OperationOutcome}
use ad_agent.Ads.Change.{
  ChangeKind, create_change, operation_change, change_kind_text, ChangeState, applied, expired,
  failed, indeterminate, Change, Digests, same_version,
}
use ad_agent.Ads.Change.Policy.{Policy, validate_change}
use ad_agent.Service.Exec.{Exec, ◌>>=◌, ◌>>◌, pure}
use ad_agent.Service.Platform.{Platform, Env, Sent, written, creation, operation, attempt, send}
use ad_agent.Service.Limits.{Service, nil_dereference, validate_operation_policy}

abbrev pub acknowledged_create : WriteOutcome
acknowledged_create = record { state = "acknowledged"; request_id = "sandbox-create"; message = "" }

module _ {D : Type 0} where
  -- `ads.WriteRequest{Target: current, Kind: string(c.Kind), Budget: ..., Status: ...}`
  unfoldable pub write_request : ChangeKind → Entity D → Entity D → WriteRequest D
  unfolding change_kind_text
  write_request kind current after = record {
    target = current;
    kind = change_kind_text kind;
    budget = after.budget;
    status = after.status;
  }

  -- `change.State = s; change.Note = n`
  abbrev pub marked : Change D → ChangeState → String → Change D
  marked c s n = record c { state = s; note = n }

module _ {D : Type 0} ⦃dig : Digests D⦄ where
  -- A read that answers with an entity of the version that is wanted.
  abbrev pub matches : Result (Entity D) → Entity D → Bool
  matches (ok e) wanted = same_version e wanted
  matches (err _) wanted = false

  abbrev pub same_plan : OperationPlan D → OperationPlan D → Bool
  same_plan a b = dig.plan_version a == dig.plan_version b

module _ {D W : Type 0} ⦃p : Platform D W⦄ ⦃dec : Decimal D⦄ ⦃dig : Digests D⦄ where
  -- After an acknowledged write: only a read-back that matches confirms it.
  confirm_write : Change D → Entity D → Entity D → Exec (Env D W) (Change D)
  confirm_write c before after = do
    observed ← attempt (p.get before.level before.id)
    pure (
        if matches observed after
        then marked c applied "acknowledged and read-back matched"
        else marked c indeterminate "read-back not confirmed")

  settle_write : Change D → Entity D → Entity D → String → Exec (Env D W) (Change D)
  unfolding confirm_write
  settle_write c before after state =
      if state == "not_sent" || state == "rejected"
      then pure (record c { state = failed })
      else if state == "acknowledged"
      then confirm_write c before after
      else pure (marked c indeterminate "remote outcome unknown; no automatic retry")

  -- A nil Writer is dereferenced by the call.
  write_field : Service D → Change D → Entity D → Entity D → Entity D → Exec (Env D W) (Change D)
  unfolding settle_write
  write_field s c before after current =
      let request = write_request c.kind current after in
      if not s.has_writer then nil_dereference else (do
        outcome ← send c.id (written request) (p.write request)
        settle_write (record c { outcome = some outcome }) before after outcome.state)

  validated :
      Service D → Change D → Entity D → Entity D → Entity D → Check → Exec (Env D W) (Change D)
  unfolding write_field
  validated s c before after current (ok _) = write_field s c before after current
  validated s c before after current (err e) = pure (marked c failed e)

  revalidated :
      Service D → Change D → Entity D → Entity D → Result (Entity D) → Exec (Env D W) (Change D)
  unfolding validated
  revalidated s c before after (err _) =
      pure (marked c failed "revalidation_read_failed; request not sent")
  revalidated s c before after (ok current) =
      if not (same_version current before)
      then pure (marked c expired "target_changed")
      else validated s c before after current (validate_change s.policy current after c.kind)

  apply_field :
      Service D → Change D → Option (Entity D) → Option (Entity D) → Exec (Env D W) (Change D)
  unfolding revalidated
  apply_field s c (some before) (some after) = do
    current ← attempt (p.get before.level before.id)
    revalidated s c before after current
  apply_field s c _ _ = pure (marked c failed "invalid_change_payload")

  confirm_operation : Change D → OperationPlan D → OperationOutcome → Exec (Env D W) (Change D)
  confirm_operation c plan outcome = do
    matched ← attempt (p.reconcile_operation plan outcome)
    pure (
        if is_matched matched
        then marked c applied "acknowledged and read-back matched"
        else marked c indeterminate "operation acknowledged; read-back not confirmed")
    where
      is_matched : Result Bool → Bool
      is_matched (ok b) = b
      is_matched (err _) = false

  settle_operation : Change D → OperationPlan D → OperationOutcome → Exec (Env D W) (Change D)
  unfolding confirm_operation
  settle_operation c plan outcome =
      if outcome.state == "not_sent" || outcome.state == "rejected"
      then pure (record c { state = failed })
      else if outcome.state == "acknowledged"
      then confirm_operation c plan outcome
      else if outcome.state == "partial"
      then pure (marked c indeterminate "operation partially completed; no automatic retry")
      else pure (marked c indeterminate "remote outcome unknown; no automatic retry")

  send_operation : Change D → OperationPlan D → Result (Unit {0}) → Exec (Env D W) (Change D)
  unfolding settle_operation
  send_operation c plan (err e) = pure (marked c failed (e ++ "; request not sent"))
  send_operation c plan (ok _) = do
    outcome ← send c.id (operation plan) (p.apply_operation plan)
    settle_operation (record c { operation_outcome = some outcome }) plan outcome

  reprepared :
      Policy D → Change D → OperationPlan D → Result (OperationPlan D) → Exec (Env D W) (Change D)
  unfolding send_operation
  reprepared policy c plan (err _) =
      pure (marked c failed "operation_revalidation_failed; request not sent")
  reprepared policy c plan (ok prepared) =
      if not (same_plan prepared plan)
      then pure (marked c expired "operation_dependencies_changed")
      else (do
        checked ← validate_operation_policy policy prepared.request
        send_operation c prepared checked)

  apply_operation : Service D → Change D → Option (OperationPlan D) → Exec (Env D W) (Change D)
  unfolding reprepared
  apply_operation s c none = pure (marked c failed "invalid_operation_payload")
  apply_operation s c (some plan) =
      if not s.has_operator then pure (marked c failed "invalid_operation_payload") else (do
        prepared ← attempt (p.prepare_operation plan.request)
        reprepared s.policy c plan prepared)

  confirm_create : Change D → Entity D → Exec (Env D W) (Change D)
  confirm_create c created = do
    observed ← attempt (p.get created.level created.id)
    pure (
        if matches observed created
        then marked c applied "created and read-back matched"
        else marked c indeterminate "creation acknowledged; read-back not confirmed")

  settle_create : Change D → Result (Entity D) → Exec (Env D W) (Change D)
  unfolding confirm_create
  settle_create c (err _) = pure (marked c failed "create_failed")
  settle_create c (ok created) =
      confirm_create (record c { created = some created; outcome = some acknowledged_create })
        created

  -- A nil Creator is dereferenced by the call.
  send_create : Service D → Change D → CreateRequest D → Bool → Exec (Env D W) (Change D)
  unfolding settle_create
  send_create s c request false = pure (marked c expired "parent_changed")
  send_create s c request true =
      if not s.has_creator
      then nil_dereference
      else (do created ← send c.id (creation request) (p.create request); settle_create c created)

  parent_unchanged : Option (Entity D) → Exec (Env D W) Bool
  parent_unchanged none = pure true
  parent_unchanged (some parent) = do
    current ← attempt (p.get parent.level parent.id)
    pure (matches current parent)

  -- applyCreate
  apply_create : Service D → Change D → Option (CreateRequest D) → Exec (Env D W) (Change D)
  unfolding send_create parent_unchanged
  apply_create s c none = pure (marked c failed "invalid_create_payload")
  apply_create s c (some request) = do
    unchanged ← parent_unchanged c.parent
    send_create s c request unchanged

  perform_kind : ChangeKind → Service D → Change D → Exec (Env D W) (Change D)
  unfolding apply_create apply_operation apply_field
  perform_kind create_change s c = apply_create s c c.create
  perform_kind operation_change s c = apply_operation s c c.operation
  perform_kind _ s c = apply_field s c c.before c.after

  -- What Apply does with a claimed change.
  unfoldable pub perform : Service D → Change D → Exec (Env D W) (Change D)
  unfolding perform_kind
  perform s c = perform_kind c.kind s c
