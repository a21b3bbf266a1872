-- ===== src/Ads/Change/Policy.antt =====
-- internal/ads/changes.go: Policy.Validate, which a budget or a status change has to pass both when
-- it is staged and again just before it is sent.
pub mod Allowed
use ad_agent.Prelude.{◌==◌, Bool, false, not, ◌||◌, Option, some}
use ad_agent.Prelude.Result.{Result, Check, ok, err, ◌>>=◌, ◌>>◌, refuse, or_else}
use ad_agent.Ads.Decimal.{Decimal, less_than, greater_than, equal, is_positive}
use ad_agent.Ads.Types.{Entity, ad, same_level, check_entity}
use ad_agent.Ads.Change.{ChangeKind, budget_change, status_change, Digests}

pub record Policy (D : Type 0) : Type 0 where
  pub max_budget : D
  pub max_delta_percent : D
  pub min_budget : D
  pub live_writes : Bool

module _ {D : Type 0} ⦃dec : Decimal D⦄ where
  -- SandboxPolicy
  abbrev pub sandbox_policy : Policy D
  sandbox_policy = record {
    max_budget = dec.of_int 50000;
    max_delta_percent = dec.of_int 20;
    min_budget = dec.of_int 1;
    live_writes = false;
  }

  -- ReadOnlyPolicy
  abbrev pub read_only_policy : Policy D
  read_only_policy = record {
    max_budget = dec.of_int 0;
    max_delta_percent = dec.of_int 0;
    min_budget = dec.of_int 0;
    live_writes = false;
  }

  -- The limits that hold for every budget, and the one on the step from the old budget.
  unfoldable pub within_limits : Policy D → D → D → Check
  within_limits p old new = do
    refuse (equal old new) "no_change"
    refuse
        (not (is_positive p.max_budget)
          || not (is_positive p.max_delta_percent)
          || not (is_positive p.min_budget))
        "budget_policy_not_configured"
    refuse (greater_than new p.max_budget || less_than new p.min_budget) "budget_outside_limits"
    refuse
        (not (is_positive old)
          || greater_than (dec.times (dec.abs (dec.minus new old)) (dec.of_int 100))
              (dec.times old p.max_delta_percent))
        "budget_delta_exceeded"

  both_budgets : Policy D → Bool → Option D → Option D → Check
  unfolding within_limits
  both_budgets p false (some old) (some new) = within_limits p old new
  both_budgets p _ _ _ = err "budget_not_supported"

  -- The `switch`: the entity that may differ from `before` in the changed field only.
  unfoldable pub expected_after : Policy D → Entity D → Entity D → ChangeKind → Result (Entity D)
  unfolding both_budgets same_level
  expected_after p before after budget_change = do
    both_budgets p (same_level before.level ad) before.budget after.budget
    ok (record before { budget = after.budget })
  expected_after p before after status_change = do
    refuse (before.status == after.status) "no_change"
    ok (record before { status = after.status })
  expected_after p before after _ = err "unsupported_change"

  module _ ⦃dig : Digests D⦄ where
    -- Policy.Validate
    unfoldable pub validate_change : Policy D → Entity D → Entity D → ChangeKind → Check
    unfolding same_level check_entity expected_after
    validate_change p before after kind = do
      refuse
          (not (before.id == after.id)
            || not (before.account_id == after.account_id)
            || not (same_level before.level after.level))
          "target_mismatch"
      or_else (check_entity after before.account_id) "invalid_target"
      expected ← expected_after p before after kind
      refuse (not (dig.entity_version expected == dig.entity_version after))
          "multiple_fields_not_allowed"
