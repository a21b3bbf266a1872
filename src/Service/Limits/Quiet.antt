-- ===== src/Service/Limits/Quiet.antt =====
-- Reading the limits and checking an operation against them writes nothing and sends nothing.
use ad_agent.Prelude.{String, refl, Option, none, some, List, [], ◌∷◌}
use ad_agent.Prelude.Result.{Check, ok, err}
use ad_agent.Ads.Decimal.{Decimal}
use ad_agent.Ads.Types.{Level, Source}
use ad_agent.Ads.Operations.{
  OperationKind, update_ad_group, create_campaign_bundle, create_automated_rule, OperationRequest,
  AdGroupUpdateSpec, CampaignBundleSpec, AutomatedRuleCreateSpec,
}
use ad_agent.Ads.Change.{Digests}
use ad_agent.Ads.Change.Policy.{Policy}
use ad_agent.Service.Exec.{Exec}
use ad_agent.Service.Exec.Ensures.{Ensures}
use ad_agent.Service.Platform.{Platform, Env}
use ad_agent.Service.Sending.{Quiet, quiet_rules, Quiet-bind}
use ad_agent.Service.Limits.{
  Service, nil_dereference, or_stop, stored_policy, refresh_policy, check_update, check_targets,
  check_group, check_bundle, check_rule, check_kind, validate_operation_policy,
}

module _ {D W : Type 0} ⦃p : Platform D W⦄ where
  stored_policy-Quiet :
      (src : Source) (fallback : Policy D) → Ensures Quiet (stored_policy {W = W} src fallback)
  unfolding stored_policy
  stored_policy-Quiet src fallback = record { at = λ e. record { tables = refl; sent = refl } }

  pub refresh_policy-Quiet : (s : Service D) → Ensures Quiet (refresh_policy {W = W} s)
  unfolding refresh_policy
  refresh_policy-Quiet s = search (quiet_rules, stored_policy-Quiet)

module _ {D W : Type 0} ⦃p : Platform D W⦄ ⦃dec : Decimal D⦄ ⦃dig : Digests D⦄ where
  check_update-Quiet :
      (policy : Policy D) (level : Level) (id : String) (budget : Option D)
      → Ensures Quiet (check_update {W = W} policy level id budget)
  unfolding check_update
  check_update-Quiet policy level id none = search quiet_rules
  check_update-Quiet policy level id (some b) = search quiet_rules

  or_stop-Quiet :
      (c : Check) (next : Exec (Env D W) Check)
      → Ensures Quiet next
      → Ensures Quiet (or_stop c next)
  unfolding or_stop
  or_stop-Quiet (ok _) next h = h
  or_stop-Quiet (err e) next h = search quiet_rules

  pub nil_dereference-Quiet :
      {A : Type 0} → Ensures (Quiet {D = D} {W = W}) (nil_dereference {A = A})
  unfolding nil_dereference
  nil_dereference-Quiet = search quiet_rules

  check_targets-Quiet :
      (policy : Policy D) (level : Level) (value : Option D) (ids : List String)
      → Ensures Quiet (check_targets {W = W} policy level value ids)
  unfolding check_targets
  check_targets-Quiet policy level value [] = search quiet_rules
  check_targets-Quiet policy level value (id ∷ ids) =
      Quiet-bind _ _ (check_update-Quiet policy level id value)
        (λ c. or_stop-Quiet c _ (check_targets-Quiet policy level value ids))

  check_group-Quiet :
      (policy : Policy D) (u : Option (AdGroupUpdateSpec D))
      → Ensures Quiet (check_group {W = W} policy u)
  unfolding check_group
  check_group-Quiet policy none = nil_dereference-Quiet
  check_group-Quiet policy (some u) = search check_update-Quiet

  check_bundle-Quiet :
      (policy : Policy D) (b : Option (CampaignBundleSpec D))
      → Ensures Quiet (check_bundle {W = W} policy b)
  unfolding check_bundle
  check_bundle-Quiet policy none = nil_dereference-Quiet
  check_bundle-Quiet policy (some b) = search quiet_rules

  check_rule-Quiet :
      (policy : Policy D) (r : Option (AutomatedRuleCreateSpec D))
      → Ensures Quiet (check_rule {W = W} policy r)
  unfolding check_rule
  check_rule-Quiet policy none = nil_dereference-Quiet
  check_rule-Quiet policy (some r) = search (quiet_rules, check_targets-Quiet)

  check_kind-Quiet :
      (policy : Policy D) (k : OperationKind) (r : OperationRequest D)
      → Ensures Quiet (check_kind {W = W} policy k r)
  unfolding check_kind
  check_kind-Quiet policy update_ad_group r = search check_group-Quiet
  check_kind-Quiet policy create_campaign_bundle r = search check_bundle-Quiet
  check_kind-Quiet policy create_automated_rule r = search check_rule-Quiet
  check_kind-Quiet policy _ r = search quiet_rules

  pub validate_operation_policy-Quiet :
      (policy : Policy D) (r : OperationRequest D)
      → Ensures Quiet (validate_operation_policy {W = W} policy r)
  unfolding validate_operation_policy
  validate_operation_policy-Quiet policy r = check_kind-Quiet policy r.kind r
