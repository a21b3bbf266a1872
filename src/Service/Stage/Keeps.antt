-- ===== src/Service/Stage/Keeps.antt =====
-- Staging is made of calls that send nothing, and inserts a change in the state `staged` only.
use ad_agent.Prelude.{String}
use ad_agent.Ads.Decimal.{Decimal}
use ad_agent.Ads.Types.{Entity, CreateRequest}
use ad_agent.Ads.Operations.{OperationRequest}
use ad_agent.Ads.Operations.Fields.{Formats}
use ad_agent.Ads.Change.{ChangeKind, Digests}
use ad_agent.Ads.Change.Policy.{Policy}
use ad_agent.Store.Session.{Session}
use ad_agent.Service.Exec.Ensures.{Ensures}
use ad_agent.Service.Platform.{Platform, Env}
use ad_agent.Service.Limits.{Service, refresh_policy, validate_operation_policy}
use ad_agent.Service.Limits.Quiet.{refresh_policy-Quiet, validate_operation_policy-Quiet}
use ad_agent.Service.Keep.{Kept, keep_rules}
use ad_agent.Service.Stage.{
  own_account, fresh_parent, parent_of, stage, stage_create, stage_operation,
}

module _ {D W : Type 0} ⦃p : Platform D W⦄ {R : Env D W → Env D W → Type 0} (κ : Kept R) where
  keep_policy : (s : Service D) → Ensures R (refresh_policy s)
  keep_policy s = κ.quiet _ _ (refresh_policy-Quiet s)

  own_account_keeps : (session : Session D) → Ensures R (own_account session)
  unfolding own_account
  own_account_keeps session = search keep_rules

module _ {D W : Type 0} ⦃p : Platform D W⦄ ⦃dec : Decimal D⦄ ⦃dig : Digests D⦄
    {R : Env D W → Env D W → Type 0} (κ : Kept R) where
  pub stage_keeps :
      (s : Service D) (session : Session D) (before after : Entity D) (kind : ChangeKind)
      (reason : String)
      → Ensures R (stage s session before after kind reason)
  unfolding stage
  stage_keeps s session before after kind reason =
      search (keep_rules, keep_policy, own_account_keeps) depth 14

  fresh_parent_keeps :
      (session : Session D) (request : CreateRequest D) → Ensures R (fresh_parent session request)
  unfolding fresh_parent
  fresh_parent_keeps session request = search keep_rules depth 10

  parent_of_keeps :
      (session : Session D) (request : CreateRequest D) → Ensures R (parent_of session request)
  unfolding parent_of
  parent_of_keeps session request = search (keep_rules, fresh_parent_keeps)

  pub stage_create_keeps :
      (s : Service D) (session : Session D) (request : CreateRequest D) (reason : String)
      → Ensures R (stage_create s session request reason)
  unfolding stage_create
  stage_create_keeps s session request reason =
      search (keep_rules, keep_policy, parent_of_keeps, own_account_keeps) depth 14

  keep_limits :
      (policy : Policy D) (r : OperationRequest D) → Ensures R (validate_operation_policy policy r)
  keep_limits policy r = κ.quiet _ _ (validate_operation_policy-Quiet policy r)

  pub stage_operation_keeps :
      (fmt : Formats) (s : Service D) (session : Session D) (request : OperationRequest D)
      (reason : String)
      → Ensures R (stage_operation fmt s session request reason)
  unfolding stage_operation
  stage_operation_keeps fmt s session request reason =
      search (keep_rules, keep_policy, keep_limits, own_account_keeps) depth 14
