-- ===== src/Service/Settle/Keeps.antt =====
-- Reconcile and Discard are made of calls that send nothing.
use ad_agent.Prelude.{String, Bool, true, false, Option, none, some}
use ad_agent.Ads.Types.{Entity}
use ad_agent.Ads.Operations.{OperationPlan, OperationOutcome}
use ad_agent.Ads.Change.{ChangeKind, create_change, operation_change, Change, Digests}
use ad_agent.Service.Exec.Ensures.{Ensures}
use ad_agent.Service.Platform.{Platform, Env}
use ad_agent.Service.Limits.{Service}
use ad_agent.Service.Keep.{Kept, keep_rules}
use ad_agent.Service.Settle.{
  resolve, interrupt, reconcile_operation, discard, reconcile_create, reconcile_field,
  reconcile_kind, reconcile,
}

module _ {D W : Type 0} ⦃p : Platform D W⦄ {R : Env D W → Env D W → Type 0} (κ : Kept R) where
  resolve_keeps : (b : Bool) (c : Change D) (note : String) → Ensures R (resolve b c note)
  unfolding resolve
  resolve_keeps false c note = search keep_rules
  resolve_keeps true c note = search keep_rules

  interrupt_keeps : (c : Change D) → Ensures R (interrupt c)
  unfolding interrupt
  interrupt_keeps c = search keep_rules depth 8

  reconcile_operation_keeps :
      (s : Service D) (c : Change D) (plan : Option (OperationPlan D)) (o : Option OperationOutcome)
      → Ensures R (reconcile_operation s c plan o)
  unfolding reconcile_operation
  reconcile_operation_keeps s c (some plan) (some o) = search (keep_rules, resolve_keeps)
  reconcile_operation_keeps s c (some plan) none = search keep_rules
  reconcile_operation_keeps s c none o = search keep_rules

  pub discard_keeps : (session_id id : String) → Ensures R (discard session_id id)
  unfolding discard
  discard_keeps session_id id = search keep_rules depth 8

module _ {D W : Type 0} ⦃p : Platform D W⦄ ⦃dig : Digests D⦄ {R : Env D W → Env D W → Type 0}
    (κ : Kept R) where
  reconcile_create_keeps :
      (c : Change D) (created : Option (Entity D)) → Ensures R (reconcile_create c created)
  unfolding reconcile_create
  reconcile_create_keeps c none = search keep_rules
  reconcile_create_keeps c (some e) = search (keep_rules, resolve_keeps)

  reconcile_field_keeps :
      (c : Change D) (b a : Option (Entity D)) → Ensures R (reconcile_field c b a)
  unfolding reconcile_field
  reconcile_field_keeps c (some b) (some a) = search (keep_rules, resolve_keeps)
  reconcile_field_keeps c (some b) none = search keep_rules
  reconcile_field_keeps c none a = search keep_rules

  reconcile_kind_keeps :
      (k : ChangeKind) (s : Service D) (c : Change D) → Ensures R (reconcile_kind k s c)
  unfolding reconcile_kind
  reconcile_kind_keeps create_change s c = reconcile_create_keeps c c.created
  reconcile_kind_keeps operation_change s c =
      reconcile_operation_keeps κ s c c.operation c.operation_outcome
  reconcile_kind_keeps _ s c = reconcile_field_keeps c c.before c.after

  pub reconcile_keeps :
      (s : Service D) (session_id id : String) → Ensures R (reconcile s session_id id)
  unfolding reconcile
  reconcile_keeps s session_id id =
      search (keep_rules, interrupt_keeps, reconcile_kind_keeps) depth 9
