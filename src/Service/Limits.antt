-- ===== src/Service/Limits.antt =====
-- internal/agenthost/policy_settings.go, internal/agenthost/operation_policy.go and BudgetPolicy of
-- internal/store/workspace.go: the budget limits in force, and the check of an operation against
-- them.
pub mod Quiet
pub mod Returns
use ad_agent.Prelude.{
  ℕ, String, ◌==◌, Bool, true, false, not, ◌||◌, Option, none, some, List, [], ◌∷◌, if◌then◌else◌,
}
use ad_agent.Prelude.Result.{Result, Check, ok, err}
use ad_agent.Ads.Decimal.{Decimal, less_than, greater_than, equal, is_positive}
use ad_agent.Ads.Types.{Level, ad_group, Source, same_source, Entity}
use ad_agent.Ads.Operations.{
  OperationKind, update_ad_group, create_campaign_bundle, create_automated_rule, OperationRequest,
  AdGroupUpdateSpec, CampaignBundleSpec, AutomatedRuleCreateSpec,
}
use ad_agent.Ads.Change.{Digests, budget_change}
use ad_agent.Ads.Change.Policy.{Policy, validate_change}
use ad_agent.Store.Tables.{Faults, database_error}
use ad_agent.Service.Exec.{Exec, ◌>>=◌, pure, fail}
use ad_agent.Service.Platform.{Platform, Env, call, attempt}

-- The fields of `Changes`. A nil Creator, Planner, Operator or Writer is a `false`.
pub record Service (D : Type 0) : Type 0 where
  pub has_writer : Bool
  pub has_creator : Bool
  pub has_planner : Bool
  pub has_operator : Bool
  pub policy : Policy D

module _ {D : Type 0} where
  -- SELECT payload FROM budget_policies WHERE source = ?
  unfoldable pub saved_policy : Source → List (Source × Policy D) → Option (Policy D)
  saved_policy src [] = none
  saved_policy src ((s, p) ∷ rest) = if same_source s src then some p else saved_policy src rest

  -- The live-write authority always is the one injected at composition.
  abbrev pub policy_or : Policy D → Option (Policy D) → Policy D
  policy_or fallback none = fallback
  policy_or fallback (some saved) = record saved { live_writes = fallback.live_writes }

  -- Store.BudgetPolicy
  unfoldable pub budget_policy :
      Bool → Source → Policy D → List (Source × Policy D) → Result (Policy D)
  budget_policy fault src fallback rows =
      if fault then err database_error else ok (policy_or fallback (saved_policy src rows))

module _ {D W : Type 0} ⦃p : Platform D W⦄ where
  unfoldable pub stored_policy : Source → Policy D → Exec (Env D W) (Policy D)
  stored_policy src fallback e =
      let (f, w) = p.faults e.world in
      (budget_policy f.first src fallback e.tables.budget_policies, record e { world = w })

  -- refreshPolicy
  unfoldable pub refresh_policy : Service D → Exec (Env D W) (Service D)
  unfolding stored_policy
  refresh_policy s = do
    account ← call p.account
    policy ← stored_policy account.source s.policy
    pure (record s { policy = policy })

-- checkNew
unfoldable pub check_new : {D : Type 0} ⦃dec : Decimal D⦄ → Policy D → Option D → Check
check_new policy none = ok tt
check_new policy (some value) =
    if not (is_positive policy.min_budget)
      || not (is_positive policy.max_budget)
      || not (is_positive policy.max_delta_percent)
    then err "budget_policy_not_configured"
    else if less_than value policy.min_budget || greater_than value policy.max_budget
    then err "budget_outside_limits"
    else ok tt

abbrev pub unchanged_budget : {D : Type 0} ⦃dec : Decimal D⦄ → Option D → D → Bool
unchanged_budget none b = false
unchanged_budget (some old) b = equal old b

-- The first error of two checks.
abbrev pub both : Check → Check → Check
both (err e) c = err e
both (ok _) c = c

module _ {D : Type 0} ⦃dec : Decimal D⦄ ⦃dig : Digests D⦄ where
  -- checkUpdate, from what the backend answers.
  abbrev pub checked_update : Policy D → D → Result (Entity D) → Check
  checked_update policy budget (err e) = err e
  checked_update policy budget (ok before) =
      if unchanged_budget before.budget budget
      then check_new policy (some budget)
      else validate_change policy before (record before { budget = some budget }) budget_change

-- A nil dereference, which nothing recovers from: the method does not return.
unfoldable pub nil_dereference : {S A : Type 0} → Exec S A
nil_dereference = fail "invalid memory address or nil pointer dereference"

-- The checks give their error as a value.
module _ {D W : Type 0} ⦃p : Platform D W⦄ ⦃dec : Decimal D⦄ ⦃dig : Digests D⦄ where
  -- checkUpdate
  unfoldable pub check_update : Policy D → Level → String → Option D → Exec (Env D W) Check
  check_update policy level id none = pure (ok tt)
  check_update policy level id (some budget) = do
    before ← attempt (p.get level id)
    pure (checked_update policy budget before)

  or_stop : Check → Exec (Env D W) Check → Exec (Env D W) Check
  or_stop (err e) next = pure (err e)
  or_stop (ok _) next = next

  -- The loop over the targets of a rule, up to the first error.
  check_targets : Policy D → Level → Option D → List String → Exec (Env D W) Check
  unfolding or_stop
  check_targets policy level value [] = pure (ok tt)
  check_targets policy level value (id ∷ ids) = do
    checked ← check_update policy level id value
    or_stop checked (check_targets policy level value ids)

  check_group : Policy D → Option (AdGroupUpdateSpec D) → Exec (Env D W) Check
  unfolding nil_dereference
  check_group policy none = nil_dereference
  check_group policy (some u) = check_update policy ad_group u.ad_group_id u.budget

  check_bundle : Policy D → Option (CampaignBundleSpec D) → Exec (Env D W) Check
  unfolding nil_dereference
  check_bundle policy none = nil_dereference
  check_bundle policy (some b) =
      pure (both (check_new policy b.campaign.budget) (check_new policy (some b.ad_group.budget)))

  check_rule : Policy D → Option (AutomatedRuleCreateSpec D) → Exec (Env D W) Check
  unfolding check_targets nil_dereference
  check_rule policy none = nil_dereference
  check_rule policy (some r) =
      if r.action == "CHANGE_BUDGET"
      then check_targets policy r.target_level r.action_value r.target_ids
      else pure (ok tt)

  check_kind : Policy D → OperationKind → OperationRequest D → Exec (Env D W) Check
  unfolding check_group check_bundle check_rule
  check_kind policy update_ad_group r = check_group policy r.ad_group_update
  check_kind policy create_campaign_bundle r = check_bundle policy r.campaign_bundle
  check_kind policy create_automated_rule r = check_rule policy r.rule
  check_kind policy _ r = pure (ok tt)

  -- validateOperationPolicy
  unfoldable pub validate_operation_policy : Policy D → OperationRequest D → Exec (Env D W) Check
  unfolding check_kind
  validate_operation_policy policy r = check_kind policy r.kind r
