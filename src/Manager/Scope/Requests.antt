-- ===== src/Manager/Scope/Requests.antt =====
-- internal/manager/scope.go: what a manager stages and settles for one of its accounts.
use ad_agent.Prelude.{String, ◌==◌, not, some, List, [], ◌∷◌, if◌then◌else◌}
use ad_agent.Ads.Decimal.{Decimal}
use ad_agent.Ads.Types.{Level, campaign, ad_group, ad, same_level, Source, Entity, CreateRequest}
use ad_agent.Ads.Change.{ChangeKind, budget_change, status_change, Change, Digests}
use ad_agent.Store.Session.{Session, Seen, seen}
use ad_agent.Service.Exec.{Exec, ◌>>=◌, ◌>>◌, pure, reject}
use ad_agent.Service.Platform.{Platform, Env, call, fetch}
use ad_agent.Service.Stage.{stage, stage_create}
use ad_agent.Service.Apply.{apply}
use ad_agent.Service.Settle.{reconcile, discard}
use ad_agent.Runtime.Models.{no_model}
use ad_agent.Manager.Scope.{Scope, provenance_key, binding_of, get, seen_or}

-- The session that a request for one account is made with.
abbrev pub account_session : {D : Type 0} → Session D → Source → List (String × Seen D) → Session D
account_session m source provenance = record {
  id = m.id;
  source = source;
  messages = [];
  provenance = provenance;
  model = no_model;
  runtime = "";
  checkpoint = "";
  execution_contract = "";
}

module _ {D W : Type 0} ⦃dec : Decimal D⦄ ⦃dig : Digests D⦄ where
  -- Scope.stage
  unfoldable pub stage_for :
      Scope D W
      → Session D
      → String
      → Entity D
      → Entity D
      → ChangeKind
      → String
      → Exec (Env D W) (Change D)
  unfolding binding_of
  stage_for s session account before after kind reason = do
    b ← binding_of s account
    a ← call b.platform.account
    x ←
        seen_or "read_target_first"
          (seen (provenance_key account before.level before.id) session.provenance)
    stage ⦃p = b.platform⦄ b.service (account_session session a.source ((before.id, x) ∷ [])) before
        after kind reason

  -- Scope.StageBudget
  unfoldable pub stage_budget :
      Scope D W
      → Session D
      → String
      → Level
      → String
      → D
      → String
      → String
      → Exec (Env D W) (Change D)
  unfolding get stage_for
  stage_budget s session account level id amount currency reason = do
    e ← get s account level id
    b ← binding_of s account
    a ← call b.platform.account
    reject (not (currency == a.currency)) "currency_mismatch"
    stage_for s session account e (record e { budget = some amount }) budget_change reason

  -- Scope.StageStatus
  unfoldable pub stage_status :
      Scope D W → Session D → String → Level → String → String → String → Exec (Env D W) (Change D)
  unfolding get stage_for
  stage_status s session account level id status reason = do
    e ← get s account level id
    stage_for s session account e (record e { status = status }) status_change reason

  -- What an account session has seen of the parent of a new object.
  unfoldable pub parent_seen :
      Session D → String → CreateRequest D → Exec (Env D W) (List (String × Seen D))
  parent_seen session account r = if r.parent_id == "" then pure [] else (do
    x ← seen_or "read_parent_first" (
        seen
          (provenance_key account (if same_level r.level ad then ad_group else campaign)
            r.parent_id)
          session.provenance)
    pure ((r.parent_id, x) ∷ []))

  -- Scope.StageCreate
  unfoldable pub stage_create_for :
      Scope D W → Session D → String → CreateRequest D → String → Exec (Env D W) (Change D)
  unfolding binding_of parent_seen
  stage_create_for s session account r reason = do
    b ← binding_of s account
    a ← call b.platform.account
    provenance ← parent_seen session account r
    stage_create ⦃p = b.platform⦄ b.service (account_session session a.source provenance) r reason

  module _ (store : Platform D W) where
    -- Scope.Apply, Scope.Discard and Scope.Reconcile: the binding is that of the stored change's
    -- account. `store` reads the store.
    unfoldable pub apply_for : Scope D W → String → String → String → Exec (Env D W) (Change D)
    unfolding binding_of
    apply_for s session_id id operator = do
      c ← fetch ⦃p = store⦄ id
      b ← binding_of s c.source.account_id
      apply ⦃p = b.platform⦄ b.service session_id id operator

    unfoldable pub discard_for : Scope D W → String → String → Exec (Env D W) (Change D)
    unfolding binding_of
    discard_for s session_id id = do
      c ← fetch ⦃p = store⦄ id
      b ← binding_of s c.source.account_id
      discard ⦃p = b.platform⦄ session_id id

    unfoldable pub reconcile_for : Scope D W → String → String → Exec (Env D W) (Change D)
    unfolding binding_of
    reconcile_for s session_id id = do
      c ← fetch ⦃p = store⦄ id
      b ← binding_of s c.source.account_id
      reconcile ⦃p = b.platform⦄ b.service session_id id
