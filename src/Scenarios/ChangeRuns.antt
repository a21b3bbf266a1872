-- ===== src/Scenarios/ChangeRuns.antt =====
-- The theorems on the change service, at the shop.
use ad_agent.Prelude.{
  true, false, none, some, ◌≤◌, ◌≡◌, refl, sym, ap, ◌∙◌, ◌⊎◌, inl, inr, [], ◌∷◌, Bool-cases,
}
use ad_agent.Prelude.Result.{Result, ok, err, ok-injective}
use ad_agent.Ads.Change.{Change, budget_change, operation_change, applying, applied}
use ad_agent.Store.Session.{seen}
use ad_agent.Store.Tables.{find}
use ad_agent.Store.Changes
use ad_agent.Store.Leases
use ad_agent.Service.Exec
use ad_agent.Service.Exec.{◌>>=◌}
use ad_agent.Service.Platform
use ad_agent.Service.Limits.{Service, refresh_policy, budget_policy, saved_policy}
use ad_agent.Service.Exec.Completes.{Completes}
use ad_agent.Service.Platform.{Env}
use ad_agent.Service.Perform.Outcome.{Outcome, CanPrepare, perform-Outcome}
use ad_agent.Service.Limits.Returns.{lacks_payload}
use ad_agent.Ads.Operations.{OperationPlan, OperationRequest, update_ad_group}
use ad_agent.Sandbox.Updates.{no_group_settings}
use ad_agent.Service.Perform.{perform, write_request}
use ad_agent.Ads.Types.{same_source}
use ad_agent.Ads.Change.{can_transition, same_state, change_kind_text}
use ad_agent.Ads.Change.Policy.{validate_change}
use ad_agent.Service.Sending.{sends}
use ad_agent.Service.Safety.{IsSound}
use ad_agent.Service.Stage.{stage, draft}
use ad_agent.Service.Stage.Read.{AsRead}
use ad_agent.Service.Stage.Staged.{stage-stores, IsStaged}
use ad_agent.Service.Stored.{Stored}
use ad_agent.Service.Apply.Ends.{Ended, apply-Ended}
use ad_agent.Service.Apply.{apply, admit, approve, execute, run_claimed, record_result}
use ad_agent.Service.Requests.{serve_all, serve, to_discard, to_apply}
use ad_agent.Service.Requests.Once.{
  new_env, new_env-IsSound, serve_all-IsSound, sends-le_one, audit_complete,
}
use ad_agent.Service.Requests.Silent.{only_apply_sends}
use ad_agent.Service.Apply.Guards.{apply-Approved, Approved}
use ad_agent.Store.Changes.Audit.{IsLogged}
use ad_agent.Service.Settle.{reconcile, interrupt, resolve}
use ad_agent.Service.Settle.Settled.{Reconciled, reconcile-stores}
use ad_agent.Scenarios.Numbers.{Whole, pos, whole_decimal}
use ad_agent.Scenarios.World.{
  World, shop_account, with_budget, planned, text_digests, one_campaign, plain_formats,
}
use ad_agent.Scenarios.Shop.{
  shop_session, shop_service, first_world, stage_request, all_requests, staged_env, unknown_env,
  lossy_world,
}

sends-le_one_example :
    sends "change_" (serve_all plain_formats all_requests (new_env first_world)).sent ≤ 1
sends-le_one_example = sends-le_one plain_formats all_requests first_world "change_"

audit_complete_example :
    IsLogged (serve_all plain_formats all_requests (new_env first_world)).tables
audit_complete_example = audit_complete plain_formats all_requests first_world

only_apply_sends_example :
    (serve plain_formats shop_service (to_discard "s" "change_") staged_env).1.sent
    ≡ staged_env.sent
only_apply_sends_example =
    only_apply_sends plain_formats shop_service (to_discard "s" "change_") staged_env refl

apply-Approved_example :
    ((apply shop_service "s" "change_" "operator" staged_env).1.sent ≡ staged_env.sent)
    ⊎ Approved shop_service "s" "change_" "operator" staged_env
apply-Approved_example = apply-Approved shop_service "s" "change_" "operator" staged_env

abbrev value_of : {A : Type 0} → A → Result A → A
value_of a (ok b) = b
value_of a (err e) = a

-- A change to fall back on where a run fails, which none does.
abbrev no_change : Change Whole
no_change = draft "" "" shop_account budget_change "" 0 0

abbrev staged_change : Change Whole
staged_change =
    value_of no_change
      (stage shop_service shop_session (with_budget 10) (with_budget 12) budget_change "more sales"
        (new_env first_world)).0

abbrev applied_change : Change Whole
applied_change = value_of no_change (apply shop_service "s" "change_" "operator" staged_env).0

stage_runs :
    (stage shop_service shop_session
      (with_budget 10)
      (with_budget 12)
      budget_change
      "more sales"
      (new_env first_world)).0
    ≡ ok staged_change
unfolding serve_all serve stage ◌>>=◌ refresh_policy Platform.call budget_policy Exec.pure
    Platform.ask Exec.reject seen Exec.raise validate_change saved_policy same_source
    Platform.insert_change Changes.insert_change find
stage_runs = refl

stage-stores_example :
    Stored staged_change
      (stage shop_service shop_session
        (with_budget 10)
        (with_budget 12)
        budget_change
        "more sales"
        (new_env first_world)).1
    × IsStaged shop_session (with_budget 10) (with_budget 12) budget_change staged_change
    × AsRead shop_service shop_session
        (with_budget 10)
        (with_budget 12)
        budget_change
        (new_env first_world)
        staged_change
stage-stores_example =
    stage-stores shop_service shop_session (with_budget 10) (with_budget 12) budget_change
      "more sales" (new_env first_world) (new_env-IsSound first_world) stage_runs

staged_env-IsSound : IsSound staged_env
staged_env-IsSound =
    serve_all-IsSound plain_formats ((shop_service, stage_request) ∷ []) (new_env first_world)
      (new_env-IsSound first_world)

apply_runs : (apply shop_service "s" "change_" "operator" staged_env).0 ≡ ok applied_change
unfolding serve_all serve stage ◌>>=◌ refresh_policy Platform.call budget_policy Exec.pure
    Platform.ask Exec.reject seen Exec.raise validate_change saved_policy same_source
    Platform.insert_change Changes.insert_change find apply admit approve execute run_claimed
    record_result Exec.finally perform write_request Platform.attempt Platform.lease
    Platform.release Platform.send Platform.transition Changes.affected Changes.transition
    Changes.update_rows Changes.change Leases.lease Leases.release Leases.take_lease can_transition
    same_state change_kind_text Platform.fetch
apply_runs = refl

apply-Ended_example :
    Ended "change_" applied_change (apply shop_service "s" "change_" "operator" staged_env).1
apply-Ended_example =
    apply-Ended shop_service "s" "change_" "operator" staged_env staged_env-IsSound apply_runs

prepared_carries :
    (q : OperationPlan Whole) → CanPrepare World q → lacks_payload q.request.kind q.request ≡ false
prepared_carries q (r, (w, answer)) = elim (Bool-cases (lacks_payload r.kind r)) [
  | inl lacks ↦ let refused = rw lacks at answer in cc refused
  | inr has ↦
      let same : ok (planned r) ≡ ok q = rw has at answer in
      let is_plan : planned r ≡ q = ok-injective same in
      ap (λ x. lacks_payload x.request.kind x.request) (sym is_plan) ∙ has
]

abbrev rebudget : OperationRequest Whole
rebudget = record {
  kind = update_ad_group;
  campaign_bundle = none;
  ad_group_update =
      some (record no_group_settings { ad_group_id = "spring"; budget = some (pos 12) });
  ad_update = none;
  audience = none;
  rule = none;
  comment = none;
  event_source = none;
}

abbrev operating : Service Whole
operating = record shop_service { has_operator = true }

-- An operation that has been claimed.
abbrev rebudgeting : Change Whole
rebudgeting = record (draft "c" "s" shop_account operation_change "" 0 10) {
  state = applying;
  operation = some (planned rebudget);
}

perform-Outcome_example :
    Completes {S = Env Whole World} ⊥ (Outcome rebudgeting) (perform operating rebudgeting)
perform-Outcome_example = perform-Outcome operating rebudgeting refl prepared_carries

-- The approved budget has reached the backend, once.
shop_outcome :
    (applied_change.state ≡ applied)
    × (sends "change_" (apply shop_service "s" "change_" "operator" staged_env).1.sent ≡ 1)
unfolding serve_all serve stage ◌>>=◌ refresh_policy Platform.call budget_policy Exec.pure
    Platform.ask Exec.reject seen Exec.raise validate_change saved_policy same_source
    Platform.insert_change Changes.insert_change find apply admit approve execute run_claimed
    record_result Exec.finally perform write_request Platform.attempt Platform.lease
    Platform.release Platform.send Platform.transition Changes.affected Changes.transition
    Changes.update_rows Changes.change Leases.lease Leases.release Leases.take_lease can_transition
    same_state change_kind_text Platform.fetch sends
shop_outcome = (refl, refl)

abbrev resolved_change : Change Whole
resolved_change = value_of no_change (reconcile shop_service "s" "change_" unknown_env).0

reconcile_runs : (reconcile shop_service "s" "change_" unknown_env).0 ≡ ok resolved_change
unfolding serve_all serve stage ◌>>=◌ refresh_policy Platform.call budget_policy Exec.pure
    Platform.ask Exec.reject seen Exec.raise validate_change saved_policy same_source
    Platform.insert_change Changes.insert_change find apply admit approve execute run_claimed
    record_result Exec.finally perform write_request Platform.attempt Platform.lease
    Platform.release Platform.send Platform.transition Changes.affected Changes.transition
    Changes.update_rows Changes.change Leases.lease Leases.release Leases.take_lease can_transition
    same_state change_kind_text Platform.fetch reconcile interrupt resolve
reconcile_runs = refl

unknown_env-IsSound : IsSound unknown_env
unknown_env-IsSound =
    serve_all-IsSound plain_formats
      ((shop_service, stage_request) ∷ (shop_service, to_apply "s" "change_" "operator") ∷ [])
      (new_env lossy_world) (new_env-IsSound lossy_world)

reconcile-stores_example :
    Reconciled "s" "change_" resolved_change (reconcile shop_service "s" "change_" unknown_env).1
reconcile-stores_example =
    reconcile-stores shop_service "s" "change_" unknown_env unknown_env-IsSound reconcile_runs
