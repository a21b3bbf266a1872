-- ===== src/Sandbox/Evaluate/Limits.antt =====
-- What the rules may do to an entity.
use ad_agent.Prelude.{
  ℕ, String, ◌==◌, eq_iff, ◌≡◌, refl, subst, sym, Bool, true, false, not, ◌||◌, Option, none, some,
  List, [], ◌∷◌, arith, Bool-cases, inl, inr, if◌then◌else◌, map,
}
use ad_agent.Prelude.Sorting.{sort}
use ad_agent.Prelude.Result.{Check, ok, err}
use ad_agent.Ads.Decimal.{Decimal}
use ad_agent.Ads.Types.{Entity, same_level}
use ad_agent.Ads.Operations.{AutomatedRuleCreateSpec}
use ad_agent.Ads.Change.{budget_change, Digests}
use ad_agent.Ads.Change.Policy.{Policy, validate_change}
use ad_agent.Ads.Analysis.{text_less}
use ad_agent.Store.Session.{seen}
use ad_agent.Sandbox.Rules.{Calendar, RuleState, put}
use ad_agent.Sandbox.Evaluate.{
  Verdict, left_alone, refused, acts, Round, rule_policy, same_budget, checked, new_budget, verdict,
  settled, all_hold, judge, run_targets, enabled, after_last, run_rule, due, run_ids,
  evaluate_rules,
}

pub seen-put :
    {V : Type 0} (k j : String) (v : V) (m : List (String × V))
    → seen k (put j v m) ≡ (if j == k then some v else seen k m)
unfolding seen put
seen-put k j v [] = refl
seen-put k j v ((i, w) ∷ m) = ground (arith, seen-put k j v m, eq_iff i j, eq_iff i k, eq_iff j k)

module _ {D : Type 0} ⦃dec : Decimal D⦄ ⦃dig : Digests D⦄ where
  -- An entity comes to another one by pauses, and by budgets that Policy.Validate accepts.
  pub data Moves (p : Policy D) (o : Option (Entity D)) : Option (Entity D) → Type 0 where
    stays : Moves p o o
    pauses :
        {e : Entity D} → Moves p o (some e) → Moves p o (some (record e { status = "DISABLE" }))
    rebudgets :
        {e : Entity D} (v : D)
        → Moves p o (some e)
        → validate_change p e (record e { budget = some v }) budget_change ≡ ok tt
        → Moves p o (some (record e { budget = some v }))

  -- A verdict on the entity `e`, which `o` has come to.
  abbrev MovesOn : Policy D → Option (Entity D) → Verdict D → Type 0
  MovesOn p o left_alone = Unit
  MovesOn p o refused = Unit
  MovesOn p o (acts after) = Moves p o (some after)

  MovesOn-if :
      (p : Policy D) (o : Option (Entity D)) (b : Bool) (v w : Verdict D)
      → MovesOn p o v
      → MovesOn p o w
      → MovesOn p o (if b then v else w)
  MovesOn-if p o true v w h k = h
  MovesOn-if p o false v w h k = k

  checked-MovesOn :
      (p : Policy D) (o : Option (Entity D)) (e : Entity D) (v : D) (r : Check)
      → Moves p o (some e)
      → validate_change p e (record e { budget = some v }) budget_change ≡ r
      → MovesOn p o (checked (record e { budget = some v }) r)
  checked-MovesOn p o e v (ok u) h eq = rebudgets v h eq
  checked-MovesOn p o e v (err x) h eq = tt

  new_budget-MovesOn :
      (p : Policy D) (o : Option (Entity D)) (e : Entity D) (v : Option D)
      → Moves p o (some e)
      → MovesOn p o (new_budget p e v)
  unfolding new_budget
  new_budget-MovesOn p o e none h = tt
  new_budget-MovesOn p o e (some v) h =
      MovesOn-if p o (same_budget e.budget v) left_alone
        (checked (record e { budget = some v })
          (validate_change p e (record e { budget = some v }) budget_change))
        tt (checked-MovesOn p o e v _ h refl)

  verdict-MovesOn :
      (p : Policy D) (o : Option (Entity D)) (action : String) (v : Option D) (e : Entity D)
      → Moves p o (some e)
      → MovesOn p o (verdict p action v e)
  unfolding verdict
  verdict-MovesOn p o action v e h =
      let paused = record e { status = "DISABLE" } in
      let told = if action == "NOTIFY" then acts e else refused in
      MovesOn-if p o (action == "PAUSE") (if e.status == "DISABLE" then left_alone else acts paused)
        (if action == "CHANGE_BUDGET" then new_budget p e v else told)
        (MovesOn-if p o (e.status == "DISABLE") left_alone (acts paused) tt (pauses h))
        (MovesOn-if p o (action == "CHANGE_BUDGET") (new_budget p e v) told
          (new_budget-MovesOn p o e v h)
          (MovesOn-if p o (action == "NOTIFY") (acts e) refused h tt))

module _ {D : Type 0} ⦃dec : Decimal D⦄ ⦃dig : Digests D⦄ (cal : Calendar D) where
  judge-MovesOn :
      (st : RuleState D) (at : ℕ) (rule : AutomatedRuleCreateSpec D) (es : List (String × Entity D))
      (o x : Option (Entity D))
      → Moves (rule_policy st.budget_policy) o x
      → MovesOn (rule_policy st.budget_policy) o (judge cal st at rule es x)
  unfolding judge
  judge-MovesOn st at rule es o none h = tt
  judge-MovesOn st at rule es o (some e) h =
      let p = rule_policy st.budget_policy in
      let v = verdict p rule.action rule.action_value e in
      let held = all_hold cal st at rule es e in
      MovesOn-if p o (not (same_level e.level rule.target_level)) refused
        (if held then v else left_alone) tt
        (MovesOn-if p o held v left_alone (verdict-MovesOn p o rule.action rule.action_value e h)
          tt)

  settled-Moves :
      (p : Policy D) (id k : String) (r : Round D) (o : Option (Entity D)) (v : Verdict D)
      → (id ≡ k → MovesOn p o v)
      → Moves p o (seen k r.round_entities)
      → Moves p o (seen k (settled id r v).round_entities)
  settled-Moves p id k r o left_alone h m = m
  settled-Moves p id k r o refused h m = m
  settled-Moves p id k r o (acts after) h m = elim (Bool-cases (id == k)) [
    | inl same ↦ rw (seen-put k id after r.round_entities, same) (h ((eq_iff id k).0 same))
    | inr other ↦ rw (seen-put k id after r.round_entities, other) m
  ]

  run_targets-Moves :
      (st : RuleState D) (at : ℕ) (rule : AutomatedRuleCreateSpec D) (ids : List String)
      (k : String) (o : Option (Entity D)) (r : Round D)
      → Moves (rule_policy st.budget_policy) o (seen k r.round_entities)
      → Moves
          (rule_policy st.budget_policy)
          o
          (seen k (run_targets cal st at rule ids r).round_entities)
  unfolding run_targets
  run_targets-Moves st at rule [] k o r m = m
  run_targets-Moves st at rule (id ∷ ids) k o r m =
      let p = rule_policy st.budget_policy in
      let v = judge cal st at rule r.round_entities (seen id r.round_entities) in
      run_targets-Moves st at rule ids k o (settled id r v) (
        settled-Moves p id k r o v
          (λ same.
            judge-MovesOn st at rule r.round_entities o (seen id r.round_entities)
              (subst (λ i. Moves p o (seen i r.round_entities)) (sym same) m))
          m)

  -- The policy is `p` still, and an entity has moved within it.
  abbrev Within : Option (Policy D) → Option (Entity D) → String → RuleState D → Type 0
  Within p o k st = (st.budget_policy ≡ p) × Moves (rule_policy p) o (seen k st.entities)

  Within-if :
      (p : Option (Policy D)) (o : Option (Entity D)) (k : String) (b : Bool) (s t : RuleState D)
      → Within p o k s
      → Within p o k t
      → Within p o k (if b then s else t)
  Within-if p o k true s t h g = h
  Within-if p o k false s t h g = g

  run_rule-Within :
      (at : ℕ) (id k : String) (rule : AutomatedRuleCreateSpec D) (p : Option (Policy D))
      (st : RuleState D) (o : Option (Entity D))
      → Within p o k st
      → Within p o k (run_rule cal at id rule st)
  unfolding run_rule
  run_rule-Within at id k rule p st o (e, m) = (
    e,
    subst (λ q. Moves (rule_policy q) o (seen k (run_rule cal at id rule st).entities)) e
        (run_targets-Moves st at rule rule.target_ids k o _
          (subst (λ q. Moves (rule_policy q) o (seen k st.entities)) (sym e) m)),
  )

  due-Within :
      (at : ℕ) (id k : String) (rule : Option (AutomatedRuleCreateSpec D)) (p : Option (Policy D))
      (st : RuleState D) (o : Option (Entity D))
      → Within p o k st
      → Within p o k (due cal at id rule st)
  unfolding due
  due-Within at id k none p st o h = h
  due-Within at id k (some rule) p st o h =
      Within-if p o k
        (not (enabled cal (seen id st.rule_status))
          || not (after_last cal at (seen id st.rule_evaluated_at)))
        st (run_rule cal at id rule st) h (run_rule-Within at id k rule p st o h)

  run_ids-Within :
      (at : ℕ) (ids : List String) (k : String) (p : Option (Policy D)) (st : RuleState D)
      (o : Option (Entity D))
      → Within p o k st
      → Within p o k (run_ids cal at ids st)
  unfolding run_ids
  run_ids-Within at [] k p st o h = h
  run_ids-Within at (id ∷ ids) k p st o h =
      run_ids-Within at ids k p (due cal at id (seen id st.rule_definitions) st) o
        (due-Within at id k (seen id st.rule_definitions) p st o h)

  -- Whatever rules are defined, an evaluation brings each entity from what it was to what it is by
  -- pauses, and by budgets that Policy.Validate accepts under the operator's policy, or the sandbox's
  -- where none is set, of the entity as it was just before.
  pub evaluate_rules-Moves :
      (at : ℕ) (st : RuleState D) (k : String)
      → Moves
          (rule_policy st.budget_policy)
          (seen k st.entities)
          (seen k (evaluate_rules cal at st).entities)
  unfolding evaluate_rules
  evaluate_rules-Moves at st k =
      (run_ids-Within at (sort text_less (map (λ kv. kv.0) st.rule_definitions)) k st.budget_policy
        st (seen k st.entities) (refl, stays)).1
