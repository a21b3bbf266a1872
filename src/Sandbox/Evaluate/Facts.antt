-- ===== src/Sandbox/Evaluate/Facts.antt =====
-- What the rules leave alone: the facts that they read.
use ad_agent.Prelude.{
  ℕ, String, ◌≡◌, refl, ◌∙◌, Bool, true, false, not, ◌||◌, Option, none, some, List, [], ◌∷◌, map,
  if◌then◌else◌,
}
use ad_agent.Prelude.Sorting.{sort}
use ad_agent.Ads.Decimal.{Decimal}
use ad_agent.Ads.Operations.{AutomatedRuleCreateSpec}
use ad_agent.Ads.Change.{Digests}
use ad_agent.Ads.Analysis.{text_less}
use ad_agent.Store.Session.{seen}
use ad_agent.Sandbox.Rules.{Calendar, RuleState}
use ad_agent.Sandbox.Evaluate.{enabled, after_last, run_rule, due, run_ids, evaluate_rules}

module _ {D : Type 0} ⦃dec : Decimal D⦄ ⦃dig : Digests D⦄ (cal : Calendar D) where
  facts-if :
      (b : Bool) (s t : RuleState D)
      → t.hour_facts ≡ s.hour_facts
      → (if b then s else t).hour_facts ≡ s.hour_facts
  facts-if true s t h = refl
  facts-if false s t h = h

  due-facts :
      (at : ℕ) (id : String) (rule : Option (AutomatedRuleCreateSpec D)) (st : RuleState D)
      → (due cal at id rule st).hour_facts ≡ st.hour_facts
  unfolding due run_rule
  due-facts at id none st = refl
  due-facts at id (some rule) st =
      facts-if
        (not (enabled cal (seen id st.rule_status))
          || not (after_last cal at (seen id st.rule_evaluated_at)))
        st (run_rule cal at id rule st) refl

  run_ids-facts :
      (at : ℕ) (ids : List String) (st : RuleState D)
      → (run_ids cal at ids st).hour_facts ≡ st.hour_facts
  unfolding run_ids
  run_ids-facts at [] st = refl
  run_ids-facts at (id ∷ ids) st =
      run_ids-facts at ids (due cal at id (seen id st.rule_definitions) st)
      ∙ due-facts at id (seen id st.rule_definitions) st

  pub evaluate_rules-facts :
      (at : ℕ) (st : RuleState D) → (evaluate_rules cal at st).hour_facts ≡ st.hour_facts
  unfolding evaluate_rules
  evaluate_rules-facts at st =
      run_ids-facts at (sort text_less (map (λ kv. kv.0) st.rule_definitions)) st
