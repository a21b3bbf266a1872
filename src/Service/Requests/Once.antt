-- ===== src/Service/Requests/Once.antt =====
-- No change is sent twice.
use ad_agent.Prelude.{◌≤◌, String, refl, List, [], ◌∷◌, arith}
use ad_agent.Ads.Decimal.{Decimal}
use ad_agent.Ads.Operations.Fields.{Formats}
use ad_agent.Ads.Change.{Digests}
use ad_agent.Store.Tables.{find}
use ad_agent.Store.Changes.Audit.{IsLogged, entries}
use ad_agent.Store.Changes.Claims.{claims, claims_once}
use ad_agent.Service.Exec.Ensures.{Ensures}
use ad_agent.Service.Platform.{Platform, Env}
use ad_agent.Service.Limits.{Service}
use ad_agent.Service.Sending.{sends}
use ad_agent.Service.Safety.{IsSound, Preserves}
use ad_agent.Service.Stage.Keeps.{stage_keeps, stage_create_keeps, stage_operation_keeps}
use ad_agent.Service.Kinds.{Preserves-Kept}
use ad_agent.Service.Apply.Sound.{apply-Preserves}
use ad_agent.Service.Settle.Keeps.{reconcile_keeps, discard_keeps}
use ad_agent.Service.Requests.{
  Request, to_stage, to_stage_create, to_stage_operation, to_apply, to_reconcile, to_discard, serve,
  serve_all,
}

module _ {D W : Type 0} where
  -- A new database, and nothing sent yet.
  abbrev pub new_env : W → Env D W
  new_env w = record {
    tables = record { changes = []; audit = []; leases = []; budget_policies = [] };
    world = w;
    sent = [];
  }

  pub new_env-IsSound : (w : W) → IsSound (new_env w)
  unfolding sends entries claims find
  new_env-IsSound w = record {
    logged = record { distinct = tt; agrees = λ k. refl };
    bounded = λ k. omega arith;
  }

module _ {D W : Type 0} ⦃p : Platform D W⦄ ⦃dec : Decimal D⦄ ⦃dig : Digests D⦄ (fmt : Formats) where
  serve-Preserves : (s : Service D) (r : Request D) → Ensures (Preserves {W = W}) (serve fmt s r)
  unfolding serve
  serve-Preserves s (to_stage session before after kind reason) =
      stage_keeps Preserves-Kept s session before after kind reason
  serve-Preserves s (to_stage_create session request reason) =
      stage_create_keeps Preserves-Kept s session request reason
  serve-Preserves s (to_stage_operation session request reason) =
      stage_operation_keeps Preserves-Kept fmt s session request reason
  serve-Preserves s (to_apply session_id id operator) = apply-Preserves s session_id id operator
  serve-Preserves s (to_reconcile session_id id) = reconcile_keeps Preserves-Kept s session_id id
  serve-Preserves s (to_discard session_id id) = discard_keeps Preserves-Kept session_id id

  pub serve_all-IsSound :
      (rs : List (Service D × Request D)) (e : Env D W) → IsSound e → IsSound (serve_all fmt rs e)
  unfolding serve_all
  serve_all-IsSound [] e h = h
  serve_all-IsSound ((s, r) ∷ rest) e h =
      serve_all-IsSound rest (serve fmt s r e).1 (((serve-Preserves s r).at e).at h)

  -- From a new database, after any requests in any order, on any configurations and against a
  -- backend, a clock and a database that answer as they like, each change has been handed to the
  -- backend at most once.
  pub sends-le_one :
      (rs : List (Service D × Request D)) (w : W) (k : String)
      → sends k (serve_all fmt rs (new_env w)).sent ≤ 1
  sends-le_one rs w k =
      let h = serve_all-IsSound rs (new_env w) (new_env-IsSound w) in
      omega (arith, h.bounded k, claims_once _ h.logged k)

  -- From a new database, after any requests, no two rows of the changes table have one id, and for
  -- each id the audit table holds the versions of that change from its insertion on, each one step
  -- of the state machine from the one before, the last one the payload of the row.
  pub audit_complete :
      (rs : List (Service D × Request D)) (w : W) → IsLogged (serve_all fmt rs (new_env w)).tables
  audit_complete rs w = (serve_all-IsSound rs (new_env w) (new_env-IsSound w)).logged
