-- ===== src/Manager/Scope/Sound.antt =====
-- internal/manager/scope.go: staging for an account, and the record of the calls.
use ad_agent.Prelude.{String, Option, none, some}
use ad_agent.Ads.Decimal.{Decimal}
use ad_agent.Ads.Types.{Level, Entity, CreateRequest}
use ad_agent.Ads.Change.{ChangeKind, Digests}
use ad_agent.Store.Session.{Session, Seen, seen}
use ad_agent.Service.Exec.Ensures.{Ensures}
use ad_agent.Service.Platform.{Platform}
use ad_agent.Service.Keep.{keep_rules}
use ad_agent.Service.Kinds.{Preserves-Kept}
use ad_agent.Service.Safety.{Preserves}
use ad_agent.Service.Stage.{stage, stage_create}
use ad_agent.Service.Stage.Keeps.{stage_keeps, stage_create_keeps}
use ad_agent.Manager.Scope.{Scope, Binding, bound_or_fail, binding_of, get, seen_or}
use ad_agent.Manager.Scope.Requests.{
  parent_seen, stage_for, stage_budget, stage_status, stage_create_for,
}

-- The parts that only read, with the store of the scope.
module _ {D W : Type 0} ⦃p : Platform D W⦄ where
  pub found_or_fail :
      (o : Option (Binding D W)) → Ensures (Preserves {D = D} {W = W}) (bound_or_fail o)
  found_or_fail none = search (keep_rules, Preserves-Kept)
  found_or_fail (some b) = search (keep_rules, Preserves-Kept)

  pub binding_of-Preserves :
      (s : Scope D W) (account : String) → Ensures Preserves (binding_of s account)
  unfolding binding_of
  binding_of-Preserves s account = found_or_fail (seen account s.bindings)

  pub get-Preserves :
      (s : Scope D W) (account : String) (level : Level) (id : String)
      → Ensures Preserves (get s account level id)
  unfolding get
  get-Preserves s account level id = search (keep_rules, Preserves-Kept, binding_of-Preserves)

  pub seen_or-Preserves :
      (x : String) (o : Option (Seen D)) → Ensures (Preserves {D = D} {W = W}) (seen_or x o)
  seen_or-Preserves x none = search (keep_rules, Preserves-Kept)
  seen_or-Preserves x (some v) = search (keep_rules, Preserves-Kept)

module _ {D W : Type 0} ⦃p : Platform D W⦄ ⦃dec : Decimal D⦄ ⦃dig : Digests D⦄ where
  pub parent_seen-Preserves :
      (session : Session D) (account : String) (r : CreateRequest D)
      → Ensures (Preserves {D = D} {W = W}) (parent_seen session account r)
  unfolding parent_seen
  parent_seen-Preserves session account r = search (keep_rules, Preserves-Kept, seen_or-Preserves)

  -- A method of a binding, with the binding's own backend.
  pub staged_at :
      (b : Binding D W) (session : Session D) (before after : Entity D) (kind : ChangeKind)
      (reason : String)
      → Ensures Preserves (stage ⦃p = b.platform⦄ b.service session before after kind reason)
  staged_at b session before after kind reason =
      stage_keeps ⦃p = b.platform⦄ (Preserves-Kept ⦃p = b.platform⦄) b.service session before after
        kind reason

  pub stage_for-Preserves :
      (s : Scope D W) (session : Session D) (account : String) (before after : Entity D)
      (kind : ChangeKind) (reason : String)
      → Ensures Preserves (stage_for s session account before after kind reason)
  unfolding stage_for
  stage_for-Preserves s session account before after kind reason =
      search (keep_rules, Preserves-Kept, binding_of-Preserves, seen_or-Preserves, staged_at) depth
        12

  pub stage_budget-Preserves :
      (s : Scope D W) (session : Session D) (account : String) (level : Level) (id : String)
      (amount : D) (currency reason : String)
      → Ensures Preserves (stage_budget s session account level id amount currency reason)
  unfolding stage_budget
  stage_budget-Preserves s session account level id amount currency reason =
      search (keep_rules, Preserves-Kept, get-Preserves, binding_of-Preserves, stage_for-Preserves)
        depth 12

  pub stage_status-Preserves :
      (s : Scope D W) (session : Session D) (account : String) (level : Level)
      (id status reason : String)
      → Ensures Preserves (stage_status s session account level id status reason)
  unfolding stage_status
  stage_status-Preserves s session account level id status reason =
      search (keep_rules, Preserves-Kept, get-Preserves, stage_for-Preserves)

  pub create_staged_at :
      (b : Binding D W) (session : Session D) (r : CreateRequest D) (reason : String)
      → Ensures Preserves (stage_create ⦃p = b.platform⦄ b.service session r reason)
  create_staged_at b session r reason =
      stage_create_keeps ⦃p = b.platform⦄ (Preserves-Kept ⦃p = b.platform⦄) b.service session r
        reason

  pub stage_create_for-Preserves :
      (s : Scope D W) (session : Session D) (account : String) (r : CreateRequest D)
      (reason : String)
      → Ensures Preserves (stage_create_for s session account r reason)
  unfolding stage_create_for
  stage_create_for-Preserves s session account r reason =
      search
        (keep_rules, Preserves-Kept, binding_of-Preserves, parent_seen-Preserves, create_staged_at)
        depth 12
