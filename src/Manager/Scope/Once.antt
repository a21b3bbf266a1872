-- ===== src/Manager/Scope/Once.antt =====
-- internal/manager/scope.go: any requests to any managers, and what they hand to the backends.
use ad_agent.Prelude.{◌≤◌, String, List, [], ◌∷◌, arith}
use ad_agent.Ads.Decimal.{Decimal}
use ad_agent.Ads.Types.{Level, CreateRequest}
use ad_agent.Ads.Change.{Change, Digests}
use ad_agent.Store.Session.{Session}
use ad_agent.Store.Changes.Claims.{claims_once}
use ad_agent.Service.Exec.{Exec}
use ad_agent.Service.Exec.Ensures.{Ensures}
use ad_agent.Service.Platform.{Platform, Env}
use ad_agent.Service.Keep.{keep_rules, keep_fetch}
use ad_agent.Service.Kinds.{Preserves-Kept}
use ad_agent.Service.Safety.{IsSound, Preserves}
use ad_agent.Service.Sending.{sends}
use ad_agent.Service.Apply.{apply}
use ad_agent.Service.Settle.{reconcile, discard}
use ad_agent.Service.Apply.Sound.{apply-Preserves}
use ad_agent.Service.Settle.Keeps.{reconcile_keeps, discard_keeps}
use ad_agent.Service.Requests.Once.{new_env, new_env-IsSound}
use ad_agent.Manager.Scope.{Scope, Binding}
use ad_agent.Manager.Scope.Requests.{
  stage_budget, stage_status, stage_create_for, apply_for, discard_for, reconcile_for,
}
use ad_agent.Manager.Scope.Sound.{
  binding_of-Preserves, stage_budget-Preserves, stage_status-Preserves, stage_create_for-Preserves,
}

pub data ManagerRequest (D : Type 0) : Type 0 where
  wants_budget : Session D → String → Level → String → D → String → String → ManagerRequest D
  wants_status : Session D → String → Level → String → String → String → ManagerRequest D
  wants_create : Session D → String → CreateRequest D → String → ManagerRequest D
  approves : (session_id id operator : String) → ManagerRequest D
  discards : (session_id id : String) → ManagerRequest D
  reconciles : (session_id id : String) → ManagerRequest D

module _ {D W : Type 0} ⦃dec : Decimal D⦄ ⦃dig : Digests D⦄ (store : Platform D W) where
  unfoldable pub manage : Scope D W → ManagerRequest D → Exec (Env D W) (Change D)
  manage s (wants_budget session account level id amount currency reason) =
      stage_budget s session account level id amount currency reason
  manage s (wants_status session account level id status reason) =
      stage_status s session account level id status reason
  manage s (wants_create session account r reason) = stage_create_for s session account r reason
  manage s (approves session_id id operator) = apply_for store s session_id id operator
  manage s (discards session_id id) = discard_for store s session_id id
  manage s (reconciles session_id id) = reconcile_for store s session_id id

  unfoldable pub manage_all : List (Scope D W × ManagerRequest D) → Env D W → Env D W
  manage_all [] e = e
  manage_all ((s, r) ∷ rest) e = manage_all rest (manage s r e).1

module _ {D W : Type 0} ⦃p : Platform D W⦄ ⦃dec : Decimal D⦄ ⦃dig : Digests D⦄ where
  applied_at :
      (b : Binding D W) (session_id id operator : String)
      → Ensures Preserves (apply ⦃p = b.platform⦄ b.service session_id id operator)
  applied_at b session_id id operator =
      apply-Preserves ⦃p = b.platform⦄ b.service session_id id operator

  discarded_at :
      (b : Binding D W) (session_id id : String)
      → Ensures (Preserves {D = D} {W = W}) (discard ⦃p = b.platform⦄ session_id id)
  discarded_at b session_id id =
      discard_keeps ⦃p = b.platform⦄ (Preserves-Kept ⦃p = b.platform⦄) session_id id

  reconciled_at :
      (b : Binding D W) (session_id id : String)
      → Ensures Preserves (reconcile ⦃p = b.platform⦄ b.service session_id id)
  reconciled_at b session_id id =
      reconcile_keeps ⦃p = b.platform⦄ (Preserves-Kept ⦃p = b.platform⦄) b.service session_id id

  apply_for-Preserves :
      (s : Scope D W) (session_id id operator : String)
      → Ensures Preserves (apply_for p s session_id id operator)
  unfolding apply_for
  apply_for-Preserves s session_id id operator =
      search (keep_rules, keep_fetch, Preserves-Kept, binding_of-Preserves, applied_at)

  discard_for-Preserves :
      (s : Scope D W) (session_id id : String) → Ensures Preserves (discard_for p s session_id id)
  unfolding discard_for
  discard_for-Preserves s session_id id =
      search (keep_rules, keep_fetch, Preserves-Kept, binding_of-Preserves, discarded_at)

  reconcile_for-Preserves :
      (s : Scope D W) (session_id id : String) → Ensures Preserves (reconcile_for p s session_id id)
  unfolding reconcile_for
  reconcile_for-Preserves s session_id id =
      search (keep_rules, keep_fetch, Preserves-Kept, binding_of-Preserves, reconciled_at)

  manage-Preserves :
      (s : Scope D W) (r : ManagerRequest D) → Ensures (Preserves {W = W}) (manage p s r)
  unfolding manage
  manage-Preserves s (wants_budget session account level id amount currency reason) =
      stage_budget-Preserves s session account level id amount currency reason
  manage-Preserves s (wants_status session account level id status reason) =
      stage_status-Preserves s session account level id status reason
  manage-Preserves s (wants_create session account r reason) =
      stage_create_for-Preserves s session account r reason
  manage-Preserves s (approves session_id id operator) =
      apply_for-Preserves s session_id id operator
  manage-Preserves s (discards session_id id) = discard_for-Preserves s session_id id
  manage-Preserves s (reconciles session_id id) = reconcile_for-Preserves s session_id id

  manage_all-IsSound :
      (rs : List (Scope D W × ManagerRequest D)) (e : Env D W)
      → IsSound e
      → IsSound (manage_all p rs e)
  unfolding manage_all
  manage_all-IsSound [] e h = h
  manage_all-IsSound ((s, r) ∷ rest) e h =
      manage_all-IsSound rest (manage p s r e).1 (((manage-Preserves s r).at e).at h)

-- From a new database, after any requests to any managers, each over accounts of its own with
-- backends that answer as they like, each change has been handed to a backend at most once.
pub manage_all-sends :
    {D W : Type 0} ⦃dec : Decimal D⦄ ⦃dig : Digests D⦄ (store : Platform D W)
    (rs : List (Scope D W × ManagerRequest D)) (w : W) (k : String)
    → sends k (manage_all store rs (new_env w)).sent ≤ 1
manage_all-sends store rs w k =
    let h = manage_all-IsSound ⦃p = store⦄ rs (new_env w) (new_env-IsSound w) in
    omega (arith, h.bounded k, claims_once _ h.logged k)
