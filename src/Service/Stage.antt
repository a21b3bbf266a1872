-- ===== src/Service/Stage.antt =====
-- internal/agenthost/changes.go: Stage, StageCreate and StageOperation.
pub mod Keeps
pub mod Read
pub mod Staged
use ad_agent.Prelude.{
  ℕ, ◌+◌, ◌-◌, ◌*◌, String, ◌==◌, Bool, true, false, not, ◌&&◌, ◌||◌, Option, none, some, ltb, eqb,
  if◌then◌else◌, length,
}
use ad_agent.Prelude.Result.{Result, Check, ok, err, or_else}
use ad_agent.Ads.Decimal.{Decimal, greater_than}
use ad_agent.Ads.Types.{
  Level, campaign, ad_group, ad, same_level, Account, Entity, same_source, CreateRequest,
  validate_create,
}
use ad_agent.Ads.Operations.{OperationRequest, OperationPlan, same_operation}
use ad_agent.Ads.Operations.Fields.{Formats}
use ad_agent.Ads.Operations.Validate.{validate_operation}
use ad_agent.Ads.Change.{
  ChangeKind, budget_change, status_change, create_change, operation_change, staged, Change,
  Digests, same_version,
}
use ad_agent.Ads.Change.Policy.{validate_change}
use ad_agent.Store.Session.{Seen, Session, seen}
use ad_agent.Service.Exec.{Exec, ◌>>=◌, ◌>>◌, pure, fail, raise, reject}
use ad_agent.Service.Platform.{Platform, Env, ask, call, attempt, insert_change}
use ad_agent.Service.Limits.{Service, refresh_policy, validate_operation_policy}

abbrev pub minutes : ℕ → ℕ
minutes n = n * 60_000_000_000

module _ {D : Type 0} where
  -- A change with no payload yet, in the state `staged`.
  abbrev pub draft : String → String → Account → ChangeKind → String → ℕ → ℕ → Change D
  draft id session_id a kind reason created expires = record {
    id = id;
    session_id = session_id;
    source = a.source;
    kind = kind;
    before = none;
    after = none;
    parent = none;
    create = none;
    created = none;
    state = staged;
    reason = reason;
    currency = a.currency;
    spend_increasing = false;
    created_at = created;
    expires_at = expires;
    approved_at = none;
    approved_by = "";
    attempt_id = "";
    outcome = none;
    operation = none;
    operation_outcome = none;
    note = "";
  }

  -- `!ok || time.Since(seen.At) > 15*time.Minute`
  abbrev pub is_stale : ℕ → Option (Seen D) → Bool
  is_stale now none = true
  is_stale now (some s) = ltb (minutes 15) (now - s.at)

  abbrev pub wrong_level : Level → Option (Seen D) → Bool
  wrong_level want none = true
  wrong_level want (some s) = not (same_level s.entity.level want)

module _ {D : Type 0} ⦃dig : Digests D⦄ where
  -- `seen.Version == current.Version`, of an entity that the session has seen.
  abbrev pub seen_as : Option (Seen D) → Entity D → Bool
  seen_as none e = false
  seen_as (some s) e = same_version e s.entity

module _ {D : Type 0} ⦃dec : Decimal D⦄ where
  -- `after.Budget.GreaterThan(*before.Budget)`, of budgets that Validate has required.
  abbrev pub raises_budget : Option D → Option D → Bool
  raises_budget (some old) (some new) = greater_than new old
  raises_budget _ _ = false

  abbrev pub increases_spend : ChangeKind → Entity D → Entity D → Bool
  increases_spend status_change before after = after.status == "ENABLE"
  increases_spend budget_change before after = raises_budget before.budget after.budget
  increases_spend _ before after = false

module _ {D W : Type 0} ⦃p : Platform D W⦄ where
  -- The account of the backend, if it is the session's.
  own_account : Session D → Exec (Env D W) Account
  own_account session = do
    a ← call p.account
    reject (not (same_source a.source session.source)) "source_mismatch"
    pure a

module _ {D W : Type 0} ⦃p : Platform D W⦄ ⦃dec : Decimal D⦄ ⦃dig : Digests D⦄ where
  -- Stage
  unfoldable pub stage :
      Service D → Session D → Entity D → Entity D → ChangeKind → String → Exec (Env D W) (Change D)
  unfolding own_account
  stage s₀ session before after kind reason = do
    s ← refresh_policy s₀
    now ← ask p.now
    let seen_before = seen before.id session.provenance
    reject (is_stale now seen_before) "read_target_first"
    current ← call (p.get before.level before.id)
    reject (not (seen_as seen_before current) || not (same_version current before))
        "target_changed_read_again"
    raise (validate_change s.policy current after kind)
    a ← own_account session
    id ← ask (p.fresh_id "change")
    created ← ask p.now
    expires ← ask p.now
    let c = record (draft id session.id a kind reason created (expires + minutes 15)) {
      before = some current;
      after = some after;
      spend_increasing = increases_spend kind before after;
    }
    insert_change c
    pure c

  -- The parent of a new ad group or ad, which the session has to have read.
  fresh_parent : Session D → CreateRequest D → Exec (Env D W) (Entity D)
  fresh_parent session request = do
    now ← ask p.now
    let seen_parent = seen request.parent_id session.provenance
    reject (is_stale now seen_parent) "read_parent_first"
    let want = if same_level request.level ad then ad_group else campaign
    reject (wrong_level want seen_parent) "invalid_create_parent"
    read ← attempt (p.get want request.parent_id)
    current ← raise (or_else read "parent_changed_read_again")
    reject (not (seen_as seen_parent current)) "parent_changed_read_again"
    pure current

  parent_of : Session D → CreateRequest D → Exec (Env D W) (Option (Entity D))
  unfolding fresh_parent
  parent_of session request =
      if same_level request.level campaign
      then (do reject (not (request.parent_id == "")) "invalid_create_parent"; pure none)
      else (do parent ← fresh_parent session request; pure (some parent))

  -- StageCreate
  unfoldable pub stage_create :
      Service D → Session D → CreateRequest D → String → Exec (Env D W) (Change D)
  unfolding own_account parent_of
  stage_create s₀ session request reason = do
    s ← refresh_policy s₀
    reject (not s.has_creator) "create_unavailable"
    raise (or_else (validate_create request) "invalid_create_request")
    parent ← parent_of session request
    a ← own_account session
    id ← ask (p.fresh_id "change")
    created ← ask p.now
    expires ← ask p.now
    let c = record (draft id session.id a create_change reason created (expires + minutes 15)) {
      parent = parent;
      create = some request;
      spend_increasing = request.status == "ENABLE";
    }
    insert_change c
    pure c

  -- StageOperation
  unfoldable pub stage_operation :
      Formats → Service D → Session D → OperationRequest D → String → Exec (Env D W) (Change D)
  unfolding own_account
  stage_operation fmt s₀ session request reason = do
    s ← refresh_policy s₀
    reject (not s.has_planner) "operations_unavailable"
    raise (or_else (validate_operation fmt request) "invalid_operation_request")
    a ← own_account session
    checked ← validate_operation_policy s.policy request
    raise checked
    plan ← call (p.plan_operation request)
    reject (eqb (length plan.lines) 0 || not (same_operation plan.request.kind request.kind))
        "invalid_operation_plan"
    now ← ask p.now
    id ← ask (p.fresh_id "change")
    let c = record (draft id session.id a operation_change reason now (now + minutes 15)) {
      operation = some plan;
      spend_increasing = plan.spend_increasing;
    }
    insert_change c
    pure c
