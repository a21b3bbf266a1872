-- ===== src/Sandbox/Evaluate.antt =====
-- internal/sandbox/rules.go: evaluateRules.
pub mod Limits
pub mod Facts
use ad_agent.Prelude.{
  ℕ, zero, suc, String, ◌==◌, Bool, true, false, not, ◌&&◌, ◌||◌, Option, none, some, List, [], ◌∷◌,
  ◌++◌, map, all, ltb, if◌then◌else◌,
}
use Prim.Native.String
use ad_agent.Prelude.Result.{Check, ok, err}
use ad_agent.Prelude.Sorting.{sort}
use ad_agent.Ads.Decimal.{Decimal, equal}
use ad_agent.Ads.Types.{same_level, Entity}
use ad_agent.Ads.Operations.{AutomatedRuleCreateSpec}
use ad_agent.Ads.Change.{budget_change, Digests}
use ad_agent.Ads.Change.Policy.{Policy, sandbox_policy, validate_change}
use ad_agent.Ads.Analysis.{text_less}
use ad_agent.Store.Session.{seen}
use ad_agent.Sandbox.Rules.{Calendar, RuleResult, RuleState, put, rule_metrics, condition_holds}

module _ {D : Type 0} ⦃dec : Decimal D⦄ where
  abbrev same_budget : Option D → D → Bool
  same_budget none v = false
  same_budget (some b) v = equal b v

  abbrev pub rule_policy : Option (Policy D) → Policy D
  rule_policy none = sandbox_policy
  rule_policy (some p) = p

pub record Round (D : Type 0) : Type 0 where
  pub round_entities : List (String × Entity D)
  pub round_status : String
  pub round_count : ℕ

-- What a rule does to one target.
pub data Verdict (D : Type 0) : Type 0 where
  left_alone : Verdict D
  refused : Verdict D
  acts : Entity D → Verdict D

module _ {D : Type 0} ⦃dec : Decimal D⦄ ⦃dig : Digests D⦄ where
  abbrev checked : Entity D → Check → Verdict D
  checked after (ok u) = acts after
  checked after (err e) = refused

  new_budget : Policy D → Entity D → Option D → Verdict D
  new_budget policy e none = refused
  new_budget policy e (some v) =
      let after = record e { budget = some v } in
      if same_budget e.budget v
      then left_alone
      else checked after (validate_change policy e after budget_change)

  -- The `switch` over the action.
  unfoldable pub verdict : Policy D → String → Option D → Entity D → Verdict D
  unfolding new_budget
  verdict policy action value e =
      if action == "PAUSE"
      then if e.status == "DISABLE" then left_alone else acts (record e { status = "DISABLE" })
      else if action == "CHANGE_BUDGET"
      then new_budget policy e value
      else if action == "NOTIFY"
      then acts e
      else refused

  abbrev settled : String → Round D → Verdict D → Round D
  settled id r left_alone = r
  settled id r refused = record r { round_status = "REJECTED" }
  settled id r (acts after) = record {
    round_entities = put id after r.round_entities;
    round_status = if r.round_status == "REJECTED" then "REJECTED" else "SUCCEEDED";
    round_count = suc r.round_count;
  }

module _ {D : Type 0} ⦃dec : Decimal D⦄ ⦃dig : Digests D⦄ (cal : Calendar D) where
  abbrev all_hold :
      RuleState D → ℕ → AutomatedRuleCreateSpec D → List (String × Entity D) → Entity D → Bool
  all_hold st at rule es e =
      all (λ c. condition_holds cal (rule_metrics cal st.rows st.hour_facts es e c.window at) c)
        rule.conditions

  -- One target of a rule.
  unfoldable pub judge :
      RuleState D
      → ℕ
      → AutomatedRuleCreateSpec D
      → List (String × Entity D)
      → Option (Entity D)
      → Verdict D
  unfolding verdict
  judge st at rule es none = refused
  judge st at rule es (some e) =
      if not (same_level e.level rule.target_level)
      then refused
      else if all_hold st at rule es e
      then verdict (rule_policy st.budget_policy) rule.action rule.action_value e
      else left_alone

  -- The loop over the targets: each sees what the ones before it have changed.
  unfoldable pub run_targets :
      RuleState D → ℕ → AutomatedRuleCreateSpec D → List String → Round D → Round D
  unfolding judge
  run_targets st at rule [] r = r
  run_targets st at rule (id ∷ ids) r =
      run_targets st at rule ids
        (settled id r (judge st at rule r.round_entities (seen id r.round_entities)))

  abbrev enabled : Option String → Bool
  enabled none = false
  enabled (some s) = s == "ENABLED"

  -- `at.After(f.operations.RuleEvaluatedAt[id])`, where a missing key is the zero time.
  abbrev after_last : ℕ → Option ℕ → Bool
  after_last at none = true
  after_last at (some last) = ltb last at

  run_rule : ℕ → String → AutomatedRuleCreateSpec D → RuleState D → RuleState D
  unfolding run_targets
  run_rule at id rule st =
      let start : Round D = record {
        round_entities = st.entities;
        round_status = "NO_ACTION";
        round_count = 0;
      } in
      let r = run_targets st at rule rule.target_ids start in
      record st {
        entities = r.round_entities;
        rule_evaluated_at = put id at st.rule_evaluated_at;
        rule_results =
            st.rule_results
            ++ record {
              id = String.◌++◌ id (String.◌++◌ "/" (cal.stamp at));
              rule_id = id;
              executed_at = at;
              status = r.round_status;
              affected_count = r.round_count;
            }
              ∷ [];
      }

  abbrev due : ℕ → String → Option (AutomatedRuleCreateSpec D) → RuleState D → RuleState D
  unfolding run_rule
  due at id none st = st
  due at id (some rule) st =
      if not (enabled (seen id st.rule_status))
        || not (after_last at (seen id st.rule_evaluated_at))
      then st
      else run_rule at id rule st

  run_ids : ℕ → List String → RuleState D → RuleState D
  unfolding due
  run_ids at [] st = st
  run_ids at (id ∷ ids) st = run_ids at ids (due at id (seen id st.rule_definitions) st)

  -- evaluateRules
  unfoldable pub evaluate_rules : ℕ → RuleState D → RuleState D
  unfolding run_ids
  evaluate_rules at st = run_ids at (sort text_less (map (λ kv. kv.0) st.rule_definitions)) st
