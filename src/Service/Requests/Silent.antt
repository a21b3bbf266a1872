-- ===== src/Service/Requests/Silent.antt =====
-- Everything but Apply sends nothing.
use ad_agent.Prelude.{◌≡◌, inl, inr, Bool, true, false}
use ad_agent.Ads.Decimal.{Decimal}
use ad_agent.Ads.Operations.Fields.{Formats}
use ad_agent.Ads.Change.{Digests}
use ad_agent.Service.Exec.Ensures.{Ensures}
use ad_agent.Service.Platform.{Platform, Env}
use ad_agent.Service.Limits.{Service}
use ad_agent.Service.Kinds.{Unless, Unless-Kept}
use ad_agent.Service.Stage.Keeps.{stage_keeps, stage_create_keeps, stage_operation_keeps}
use ad_agent.Service.Settle.Keeps.{reconcile_keeps, discard_keeps}
use ad_agent.Service.Requests.{
  Request, to_stage, to_stage_create, to_stage_operation, to_apply, to_reconcile, to_discard, serve,
}

abbrev pub is_apply : {D : Type 0} → Request D → Bool
is_apply (to_apply session_id id operator) = true
is_apply _ = false

module _ {D W : Type 0} where
  sent_same : (e e' : Env D W) → Unless ⊥ e e' → e'.sent ≡ e.sent
  sent_same e e' (inl h) = h
  sent_same e e' (inr h) = absurd h

module _ {D W : Type 0} ⦃p : Platform D W⦄ ⦃dec : Decimal D⦄ ⦃dig : Digests D⦄ (fmt : Formats) where
  serve-Unless :
      (s : Service D) (r : Request D)
      → is_apply r ≡ false
      → Ensures (Unless {D = D} {W = W} ⊥) (serve fmt s r)
  unfolding serve
  serve-Unless s (to_stage session before after kind reason) h =
      stage_keeps (Unless-Kept ⊥) s session before after kind reason
  serve-Unless s (to_stage_create session request reason) h =
      stage_create_keeps (Unless-Kept ⊥) s session request reason
  serve-Unless s (to_stage_operation session request reason) h =
      stage_operation_keeps (Unless-Kept ⊥) fmt s session request reason
  serve-Unless s (to_apply session_id id operator) h = cc h
  serve-Unless s (to_reconcile session_id id) h = reconcile_keeps (Unless-Kept ⊥) s session_id id
  serve-Unless s (to_discard session_id id) h = discard_keeps (Unless-Kept ⊥) session_id id

  -- A request other than Apply hands nothing to the backend, on every configuration, from every
  -- state, and whatever the backend, the clock and the database answer.
  pub only_apply_sends :
      (s : Service D) (r : Request D) (e : Env D W)
      → is_apply r ≡ false
      → (serve fmt s r e).1.sent ≡ e.sent
  only_apply_sends s r e h = sent_same e (serve fmt s r e).1 ((serve-Unless s r h).at e)
