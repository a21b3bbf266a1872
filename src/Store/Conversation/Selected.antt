-- ===== src/Store/Conversation/Selected.antt =====
-- internal/store/conversation.go: when a native checkpoint survives.
use ad_agent.Prelude.{String, eq_iff, ◌≡◌, ◌≢◌, refl, Bool, true, false, arith, ap}
use ad_agent.Prelude.Result.{ok, bind_parts, ok-injective}
use ad_agent.Store.Session.{ModelSelection, Session}
use ad_agent.Runtime.Models.{ModelLibrary, same_model, validate_model, normalize_model}
use ad_agent.Store.Conversation.{
  is_unsettled, fits_runtime, select_execution, bind_execution_contract,
}

-- The session `t` is `s` after an execution was selected and its contract bound.
pub record Bound (lib : ModelLibrary) {D : Type 0} (runtime digest : String) (s t : Session D)
    : Type 0 where
  pub runs : t.runtime ≡ runtime
  pub valid : validate_model lib t.model ≡ ok tt
  pub fits : fits_runtime lib runtime t.model ≡ ok tt
  pub contract : t.execution_contract ≡ digest
  pub continues :
      t.checkpoint ≢ ""
      → (t.checkpoint ≡ s.checkpoint)
        × (s.runtime ≡ runtime)
        × (same_model s.model t.model ≡ true)
        × (s.execution_contract ≡ digest)
        × (is_unsettled s.messages ≡ false)
  pub identity :
      (t.id ≡ s.id)
      × (t.source ≡ s.source)
      × (t.messages ≡ s.messages)
      × (t.provenance ≡ s.provenance)

normalized-valid :
    (lib : ModelLibrary) (m : ModelSelection) {n : ModelSelection}
    → normalize_model lib m ≡ ok n
    → validate_model lib n ≡ ok tt
unfolding normalize_model
normalized-valid lib m h =
    let (u, passed, rest) = bind_parts (validate_model lib _) _ h in rw (← ok-injective rest) passed

-- A session whose execution is selected, and then bound to a contract, runs a model that is valid
-- and that the runtime accepts; it keeps its identity, its account and its messages; and it keeps
-- its native checkpoint only when the runtime, the model and the contract are those it had and its
-- last message is completed.
pub select_execution-Bound :
    {D : Type 0} (lib : ModelLibrary) (runtime : String) (requested fallback : ModelSelection)
    (digest : String) (s : Session D) {changed : Bool} {t : Session D}
    → select_execution lib runtime requested fallback s ≡ ok (changed, t)
    → Bound lib runtime digest s (bind_execution_contract digest t)
unfolding select_execution bind_execution_contract
select_execution-Bound lib runtime requested fallback digest s {changed} {t} h =
    let (m, chosen, h₁) = bind_parts (normalize_model lib _) _ h in
    let (_, fits, h₂) = bind_parts (fits_runtime lib runtime m) _ h₁ in
    let same = ap (λ p. p.1) (ok-injective h₂) in
    rw (← same) (record {
      runs = refl;
      valid = normalized-valid lib _ chosen;
      fits = fits;
      contract = refl;
      continues = λ kept.
          ground (arith, kept, eq_iff s.execution_contract digest, eq_iff s.runtime runtime);
      identity = (refl, refl, refl, refl);
    })
