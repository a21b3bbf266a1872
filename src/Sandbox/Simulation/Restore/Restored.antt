-- ===== src/Sandbox/Simulation/Restore/Restored.antt =====
-- internal/sandbox/simulation.go: what stands when RestoreSimulation has succeeded.
use mathlib.Core.List.{Perm, append_assoc, append-nil}
use ad_agent.Prelude.{
  ◌≤◌, String, ◌==◌, ◌≡◌, refl, sym, ap, subst, ◌∙◌, true, false, not, ◌||◌, Option, none, some,
  List, [], ◌∷◌, ◌++◌, ltb, All, arith, Bool-cases, inl, inr,
}
use ad_agent.Prelude.Result.{
  Check, ok, err, refuse, bind_parts, refuse_passed, ok-injective, Result-cases,
}
use ad_agent.Prelude.Sorting.{sort-Perm, InOrder, sort-InOrder}
use ad_agent.Ads.Decimal.{Decimal}
use ad_agent.Sandbox.Rules.{Calendar, HourFact}
use ad_agent.Sandbox.Backend.{Backend}
use ad_agent.Sandbox.Backend.Listed.{text_less-asym}
use ad_agent.Sandbox.Simulation.{Delivery, Simulated, SimulationState, has_text}
use ad_agent.Sandbox.Simulation.Restore.{
  valid_hour_fact, fact_key, append_facts, earlier, restored_state, restored_facts, restored_model,
  restore_simulation,
}

module _ {D : Type 0} ⦃dec : Decimal D⦄ (cal : Calendar D) where
  -- No two facts are of one ad and one hour.
  abbrev pub NewKeys : List String → List (HourFact D) → Type 0
  NewKeys known [] = Unit
  NewKeys known (x ∷ facts) =
      (has_text (fact_key cal x) known ≡ false) × NewKeys (fact_key cal x ∷ known) facts

  pub record Restored {G : Type 0} (facts : List (HourFact D)) (s t : Simulated D G) : Type 0 where
    pub clock : s.backend.clock ≤ t.backend.clock
    pub whole : Perm t.backend.rules.hour_facts (s.backend.rules.hour_facts ++ facts)
    pub ordered : InOrder (earlier cal) t.backend.rules.hour_facts
    pub valid : All (λ x. valid_hour_fact t.backend x ≡ true) facts
    pub keys : NewKeys [] facts

  record Appended (b : Backend D) (known : List String) (done facts all : List (HourFact D))
      : Type 0 where
    joined : all ≡ done ++ facts
    valid : All (λ x. valid_hour_fact b x ≡ true) facts
    keys : NewKeys known facts

  append_facts-Appended :
      (b : Backend D) (known : List String) (done facts : List (HourFact D)) {u : Unit {0}}
      {all : List (HourFact D)}
      → append_facts cal b known done facts ≡ (ok u, all)
      → Appended b known done facts all
  unfolding append_facts
  append_facts-Appended b known done [] h = record {
    joined = sym (ap (λ p. p.1) h) ∙ sym (append-nil done);
    valid = tt;
    keys = tt;
  }
  append_facts-Appended b known done (x ∷ facts) h = elim (Bool-cases (valid_hour_fact b x)) [
    | inr wrong ↦ let stops = ap (λ p. p.0) (rw (append_facts, wrong) at h) in cc stops
    | inl right ↦ elim (Bool-cases (has_text (fact_key cal x) known)) [
      | inl twice ↦ let stops = ap (λ p. p.0) (rw (append_facts, right, twice) at h) in cc stops
      | inr new ↦
          let rest =
            append_facts-Appended b (fact_key cal x ∷ known) (done ++ x ∷ []) facts
              (rw (append_facts, right, new) at h) in
          record {
            joined = rest.joined ∙ append_assoc done (x ∷ []) facts;
            valid = (right, rest.valid);
            keys = (new, rest.keys);
          }
    ]
  ]

  earlier-asym : (a b : HourFact D) → earlier cal a b ≡ true → earlier cal b a ≡ false
  unfolding earlier
  earlier-asym a b h = ground (arith, h, text_less-asym a.ad_id b.ad_id)

  module _ {G : Type 0} (delivery : Delivery D G) where
    -- The clock is all that a saved state changes of the backend, and it does not go back.
    restored_state-Later :
        (p : Option (SimulationState G)) (s : Simulated D G) {u : Simulated D G}
        → restored_state cal delivery p s ≡ ok u
        → (s.backend.clock ≤ u.backend.clock) × (u.backend.rules ≡ s.backend.rules)
    unfolding restored_state
    restored_state-Later none s h =
        subst (λ v. (s.backend.clock ≤ v.backend.clock) × (v.backend.rules ≡ s.backend.rules))
          (ok-injective h) (omega arith, refl)
    restored_state-Later (some p) s h =
        let other =
          not (p.environment == s.backend.environment)
          || not (p.account_id == s.backend.account.id)
          || not (p.granularity == "hour")
          || ltb p.current_time s.backend.clock in
        let (_, right, h₁) = bind_parts (refuse other _) _ h in
        let (g, _, h₂) = bind_parts (restored_model cal delivery p.model) _ h₁ in
        let passed = refuse_passed other _ right in
        let after : Simulated D G = record {
          backend = record s.backend { clock = p.current_time };
          model = g;
        } in
        subst (λ v. (s.backend.clock ≤ v.backend.clock) × (v.backend.rules ≡ s.backend.rules))
          {x = after} (ok-injective h₂) (ground (arith, passed), refl)

    restored_facts-Restored :
        (s u : Simulated D G) (facts : List (HourFact D)) (x : Check × List (HourFact D))
        {t : Simulated D G}
        → (s.backend.clock ≤ u.backend.clock) × (u.backend.rules ≡ s.backend.rules)
        → append_facts cal u.backend [] u.backend.rules.hour_facts facts ≡ x
        → restored_facts cal delivery u x ≡ (ok tt, t)
        → Restored facts s t
    unfolding restored_facts valid_hour_fact
    restored_facts-Restored s u facts (err e, all) later ran h =
        let stops = ap (λ p. p.0) h in cc stops
    restored_facts-Restored s u facts (ok w, all) later ran h =
        let added = append_facts-Appended u.backend [] u.backend.rules.hour_facts facts ran in
        let is_all : all ≡ s.backend.rules.hour_facts ++ facts =
          added.joined ∙ ap (λ r. r.hour_facts ++ facts) later.1 in
        subst (Restored facts s) (ap (λ p. p.1) h) (record {
          clock = later.0;
          whole = rw (← is_all) (sort-Perm (earlier cal) all);
          ordered = sort-InOrder (earlier cal) earlier-asym all;
          valid = added.valid;
          keys = added.keys;
        })

    -- A restore that succeeds has kept the facts that were there and added the saved ones, each valid
    -- for the restored account and none of an ad and hour of another, in the order of their hours and
    -- ads; and the clock has not gone back.
    pub restore_simulation-Restored :
        (p : Option (SimulationState G)) (facts : List (HourFact D)) (s : Simulated D G)
        {t : Simulated D G}
        → restore_simulation cal delivery p facts s ≡ (ok tt, t)
        → Restored facts s t
    unfolding restore_simulation
    restore_simulation-Restored p facts s h =
        elim (Result-cases (restored_state cal delivery p s)) [
          | inl (e, failed) ↦
              let stops = ap (λ x. x.0) (rw (restore_simulation, failed) at h) in cc stops
          | inr (u, done) ↦
              restored_facts-Restored s u facts
                (append_facts cal u.backend [] u.backend.rules.hour_facts facts)
                (restored_state-Later p s done) refl (rw (restore_simulation, done) at h)
        ]
