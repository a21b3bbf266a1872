-- ===== src/Store/Conversation.antt =====
-- internal/store/conversation.go: the model that a session executes with, and the contract that
-- its native history is bound to.
pub mod Selected
use ad_agent.Prelude.{
  String, ◌==◌, Bool, true, false, not, ◌&&◌, ◌||◌, List, [], ◌∷◌, if◌then◌else◌,
}
use ad_agent.Prelude.Result.{Result, Check, ok, err, ◌>>=◌, ◌>>◌, refuse}
use ad_agent.Store.Session.{ModelSelection, Message, Session}
use ad_agent.Runtime.Models.{
  ModelLibrary, no_model, same_model, normalize_model, validate_codex_model, api_key_auth,
  anthropic_messages,
}

-- Whether the last message, if there is one, is not completed.
unfoldable pub is_unsettled : List Message → Bool
is_unsettled [] = false
is_unsettled (m ∷ []) = not (m.status == "completed")
is_unsettled (m ∷ n ∷ rest) = is_unsettled (n ∷ rest)

module _ (lib : ModelLibrary) where
  chosen : ModelSelection → ModelSelection → ModelSelection → ModelSelection
  chosen stored requested fallback =
      if same_model requested no_model
      then if same_model stored no_model then fallback else stored
      else requested

  -- What a runtime asks of the selection beyond its being valid.
  unfoldable pub fits_runtime : String → ModelSelection → Check
  fits_runtime runtime m =
      if runtime == "codex"
      then validate_codex_model lib m
      else refuse
          (runtime == "claude"
            && (not (m.auth_mode == api_key_auth)
                || not (m.provider == "anthropic")
                || not (m.api == anthropic_messages)))
          "claude_requires_anthropic_messages"

  -- SelectExecution: whether the execution has changed, and the session.
  unfoldable pub select_execution :
      {D : Type 0}
      → String
      → ModelSelection
      → ModelSelection
      → Session D
      → Result (Bool × Session D)
  unfolding chosen fits_runtime is_unsettled
  select_execution runtime requested fallback s = do
    selection ← normalize_model lib (chosen s.model requested fallback)
    fits_runtime runtime selection
    let changed = not (s.runtime == runtime) || not (same_model s.model selection)
    let kept = if changed || is_unsettled s.messages then "" else s.checkpoint
    ok (changed, record s { runtime = runtime; model = selection; checkpoint = kept })

-- BindExecutionContract, with the digest of the system text and the tools.
unfoldable pub bind_execution_contract : {D : Type 0} → String → Session D → Session D
bind_execution_contract digest s = record s {
  checkpoint = if s.execution_contract == digest then s.checkpoint else "";
  execution_contract = digest;
}
