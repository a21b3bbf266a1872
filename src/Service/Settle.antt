-- ===== src/Service/Settle.antt =====
-- internal/agenthost/changes.go: Reconcile, which looks at the present state and sends nothing, and
-- Discard.
pub mod Keeps
pub mod Settled
use ad_agent.Prelude.{
  ℕ, ◌-◌, String, ◌==◌, Bool, true, false, not, Option, none, some, ltb, if◌then◌else◌,
}
use ad_agent.Prelude.Result.{Result, ok, err}
use ad_agent.Ads.Types.{Account, Entity, same_source}
use ad_agent.Ads.Operations.{OperationPlan, OperationOutcome}
use ad_agent.Ads.Change.{
  ChangeKind, create_change, operation_change, ChangeState, staged, applying, applied, discarded,
  indeterminate, same_state, Change, Digests, same_version,
}
use ad_agent.Service.Exec.{Exec, ◌>>=◌, ◌>>◌, pure, fail, reject}
use ad_agent.Service.Platform.{Platform, Env, ask, call, attempt, fetch, transition}
use ad_agent.Service.Limits.{Service}
use ad_agent.Service.Stage.{minutes}
use ad_agent.Service.Perform.{marked, matches}

-- `c.ApprovedAt == nil || time.Since(*c.ApprovedAt) < time.Minute`
abbrev pub may_be_active : ℕ → Option ℕ → Bool
may_be_active now none = true
may_be_active now (some at) = ltb (now - at) (minutes 1)

module _ {D W : Type 0} ⦃p : Platform D W⦄ where
  -- Move the change on if the observation confirms it, and leave it as it is otherwise.
  unfoldable pub resolve : Bool → Change D → String → Exec (Env D W) (Change D)
  resolve false c note = pure c
  resolve true c note = do
    let done = marked c applied note
    transition indeterminate done
    pure done

  -- An attempt that can no longer be running has been interrupted.
  unfoldable pub interrupt : Change D → Exec (Env D W) (Change D)
  interrupt c =
      if same_state c.state applying
      then (do
        now ← ask p.now
        reject (may_be_active now c.approved_at) "execution_may_be_active"
        let cut = marked c indeterminate "interrupted execution; request may have been sent"
        transition applying cut
        pure cut)
      else pure c

  reconcile_operation :
      Service D
      → Change D
      → Option (OperationPlan D)
      → Option OperationOutcome
      → Exec (Env D W) (Change D)
  reconcile_operation s c (some plan) (some outcome) = do
    reject (not s.has_operator) "change_not_reconcilable"
    matched ← call (p.reconcile_operation plan outcome)
    resolve matched c
        "current resources match the requested operation; execution attribution unconfirmed"
  reconcile_operation s c _ _ = fail "change_not_reconcilable"

  -- Discard
  unfoldable pub discard : String → String → Exec (Env D W) (Change D)
  discard session_id id = do
    c ← fetch id
    reject (not (c.session_id == session_id)) "change_scope_mismatch"
    reject (not (same_state c.state staged)) "change_not_staged"
    let done = record c { state = discarded }
    transition staged done
    pure done

module _ {D W : Type 0} ⦃p : Platform D W⦄ ⦃dig : Digests D⦄ where
  reconcile_create : Change D → Option (Entity D) → Exec (Env D W) (Change D)
  reconcile_create c none = fail "change_not_reconcilable"
  reconcile_create c (some created) = do
    observed ← attempt (p.get created.level created.id)
    resolve (matches observed created) c
        "created object now matches; execution attribution unconfirmed"

  reconcile_field : Change D → Option (Entity D) → Option (Entity D) → Exec (Env D W) (Change D)
  reconcile_field c (some before) (some after) = do
    observed ← call (p.get before.level before.id)
    resolve (same_version observed after) c
        "current state matches requested after; execution attribution unconfirmed"
  reconcile_field c _ _ = fail "change_not_reconcilable"

  reconcile_kind : ChangeKind → Service D → Change D → Exec (Env D W) (Change D)
  unfolding reconcile_create reconcile_operation reconcile_field
  reconcile_kind create_change s c = reconcile_create c c.created
  reconcile_kind operation_change s c = reconcile_operation s c c.operation c.operation_outcome
  reconcile_kind _ s c = reconcile_field c c.before c.after

  -- Reconcile
  unfoldable pub reconcile : Service D → String → String → Exec (Env D W) (Change D)
  unfolding reconcile_kind
  reconcile s session_id id = do
    c ← fetch id
    reject (not (c.session_id == session_id)) "change_scope_mismatch"
    a ← call p.account
    reject (not (same_source a.source c.source)) "source_mismatch"
    c' ← interrupt c
    reject (not (same_state c'.state indeterminate)) "change_not_indeterminate"
    reconcile_kind c'.kind s c'
