-- ===== src/Service/Limits/Returns.antt =====
-- internal/agenthost/operation_policy.go: the check of an operation returns, unless the payload that it
-- reads is nil.
use ad_agent.Prelude.{
  String, ◌≡◌, refl, Bool, true, false, not, Option, none, some, is_some, List, [], ◌∷◌,
}
use ad_agent.Prelude.Result.{Result, Check, ok, err}
use ad_agent.Ads.Decimal.{Decimal}
use ad_agent.Ads.Types.{Level}
use ad_agent.Ads.Operations.{
  OperationKind, update_ad_group, create_campaign_bundle, create_automated_rule, OperationRequest,
  AdGroupUpdateSpec, CampaignBundleSpec, AutomatedRuleCreateSpec,
}
use ad_agent.Ads.Change.{Digests}
use ad_agent.Ads.Change.Policy.{Policy}
use ad_agent.Service.Exec.{Exec, fail}
use ad_agent.Service.Exec.Completes.{Completes, Completes-pure, Completes-if, Completes-bind}
use ad_agent.Service.Platform.{Platform, Env, attempt}
use ad_agent.Service.Limits.{
  nil_dereference, or_stop, check_update, check_targets, check_group, check_bundle, check_rule,
  check_kind, validate_operation_policy,
}

module _ {D : Type 0} where
  -- Whether the payload that the check reads for a kind is nil.
  abbrev pub lacks_payload : OperationKind → OperationRequest D → Bool
  lacks_payload update_ad_group r = not (is_some r.ad_group_update)
  lacks_payload create_campaign_bundle r = not (is_some r.campaign_bundle)
  lacks_payload create_automated_rule r = not (is_some r.rule)
  lacks_payload _ r = false

-- The result of a call that has been tried is what the backend answers in some world.
abbrev pub Answer : {W A : Type 0} → (W → Result A × W) → Result A → Type 0
Answer {W} f r = (w : W) × ((f w).0 ≡ r)

module _ {D W A E : Type 0} where
  pub attempt_done :
      (f : W → Result A × W) → Completes {S = Env D W} E (Answer f) (attempt {D = D} f)
  unfolding attempt
  attempt_done f = record { at = λ e. (e.world, refl) }

  pub nil_dereference_done :
      {Q : A → Type 0} → E → Completes {S = Env D W} E Q (nil_dereference {A = A})
  unfolding nil_dereference fail
  nil_dereference_done x = record { at = λ e. x }

abbrev Checked : Check → Type 0
Checked c = Unit

module _ {D W E : Type 0} ⦃p : Platform D W⦄ ⦃dec : Decimal D⦄ ⦃dig : Digests D⦄ where
  check_update_done :
      (policy : Policy D) (level : Level) (id : String) (budget : Option D)
      → Completes {S = Env D W} E Checked (check_update policy level id budget)
  unfolding check_update
  check_update_done policy level id none = Completes-pure _ tt
  check_update_done policy level id (some b) =
      Completes-bind _ _ (attempt_done _) (λ r _. Completes-pure _ tt)

  or_stop_done :
      (c : Check) (next : Exec (Env D W) Check)
      → Completes E Checked next
      → Completes E Checked (or_stop c next)
  unfolding or_stop
  or_stop_done (ok _) next h = h
  or_stop_done (err e) next h = Completes-pure _ tt

  check_targets_done :
      (policy : Policy D) (level : Level) (value : Option D) (ids : List String)
      → Completes {S = Env D W} E Checked (check_targets policy level value ids)
  unfolding check_targets
  check_targets_done policy level value [] = Completes-pure _ tt
  check_targets_done policy level value (id ∷ ids) =
      Completes-bind _ _ (check_update_done policy level id value)
        (λ c _. or_stop_done c _ (check_targets_done policy level value ids))

  check_group_done :
      (policy : Policy D) (u : Option (AdGroupUpdateSpec D))
      → (not (is_some u) ≡ true → E)
      → Completes {S = Env D W} E Checked (check_group policy u)
  unfolding check_group
  check_group_done policy none h = nil_dereference_done (h refl)
  check_group_done policy (some u) h = check_update_done _ _ _ _

  check_bundle_done :
      (policy : Policy D) (b : Option (CampaignBundleSpec D))
      → (not (is_some b) ≡ true → E)
      → Completes {S = Env D W} E Checked (check_bundle policy b)
  unfolding check_bundle
  check_bundle_done policy none h = nil_dereference_done (h refl)
  check_bundle_done policy (some b) h = Completes-pure _ tt

  check_rule_done :
      (policy : Policy D) (r : Option (AutomatedRuleCreateSpec D))
      → (not (is_some r) ≡ true → E)
      → Completes {S = Env D W} E Checked (check_rule policy r)
  unfolding check_rule
  check_rule_done policy none h = nil_dereference_done (h refl)
  check_rule_done policy (some r) h =
      Completes-if _ _ _ (check_targets_done _ _ _ _) (Completes-pure _ tt)

  check_kind_done :
      (policy : Policy D) (k : OperationKind) (r : OperationRequest D)
      → (lacks_payload k r ≡ true → E)
      → Completes {S = Env D W} E Checked (check_kind policy k r)
  unfolding check_kind
  check_kind_done policy update_ad_group r h = check_group_done policy _ h
  check_kind_done policy create_campaign_bundle r h = check_bundle_done policy _ h
  check_kind_done policy create_automated_rule r h = check_rule_done policy _ h
  check_kind_done policy _ r h = Completes-pure _ tt

  pub validate_operation_policy_done :
      (policy : Policy D) (r : OperationRequest D)
      → (lacks_payload r.kind r ≡ true → E)
      → Completes {S = Env D W} E (λ (c : Check). Unit {0}) (validate_operation_policy policy r)
  unfolding validate_operation_policy
  validate_operation_policy_done policy r h = check_kind_done policy r.kind r h
