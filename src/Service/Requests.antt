-- ===== src/Service/Requests.antt =====
-- The requests that reach the change service, in the order in which they come: each of the methods
-- of internal/agenthost/changes.go, with the `Changes` value that it is called on.
pub mod Once
pub mod Silent
use ad_agent.Prelude.{String, List, [], ◌∷◌}
use ad_agent.Ads.Decimal.{Decimal}
use ad_agent.Ads.Types.{Entity, CreateRequest}
use ad_agent.Ads.Operations.{OperationRequest}
use ad_agent.Ads.Operations.Fields.{Formats}
use ad_agent.Ads.Change.{ChangeKind, Change, Digests}
use ad_agent.Store.Session.{Session}
use ad_agent.Service.Exec.{Exec}
use ad_agent.Service.Platform.{Platform, Env}
use ad_agent.Service.Limits.{Service}
use ad_agent.Service.Stage.{stage, stage_create, stage_operation}
use ad_agent.Service.Apply.{apply}
use ad_agent.Service.Settle.{reconcile, discard}

pub data Request (D : Type 0) : Type 0 where
  to_stage : Session D → Entity D → Entity D → ChangeKind → String → Request D
  to_stage_create : Session D → CreateRequest D → String → Request D
  to_stage_operation : Session D → OperationRequest D → String → Request D
  to_apply : (session_id id operator : String) → Request D
  to_reconcile : (session_id id : String) → Request D
  to_discard : (session_id id : String) → Request D

module _ {D W : Type 0} ⦃p : Platform D W⦄ ⦃dec : Decimal D⦄ ⦃dig : Digests D⦄ (fmt : Formats) where
  unfoldable pub serve : Service D → Request D → Exec (Env D W) (Change D)
  serve s (to_stage session before after kind reason) = stage s session before after kind reason
  serve s (to_stage_create session request reason) = stage_create s session request reason
  serve s (to_stage_operation session request reason) = stage_operation fmt s session request reason
  serve s (to_apply session_id id operator) = apply s session_id id operator
  serve s (to_reconcile session_id id) = reconcile s session_id id
  serve s (to_discard session_id id) = discard session_id id

  -- Any requests, whatever each of them returns.
  unfoldable pub serve_all : List (Service D × Request D) → Env D W → Env D W
  serve_all [] e = e
  serve_all ((s, r) ∷ rest) e = serve_all rest (serve s r e).1
