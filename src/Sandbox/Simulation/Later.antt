-- ===== src/Sandbox/Simulation/Later.antt =====
-- internal/sandbox/simulation.go: the account some hours later.
use ad_agent.Prelude.{
  ℕ, zero, suc, ◌+◌, ◌-◌, ◌*◌, ◌≤◌, ◌≡◌, refl, ap, sym, ◌∙◌, Bool, List, [], ◌∷◌, ◌++◌, All, arith,
  Bool-cases, inl, inr,
}
use ad_agent.Prelude.Result.{Result, ok, ok-injective}
use mathlib.Core.List.{append_assoc}
use ad_agent.Ads.Decimal.{Decimal}
use ad_agent.Ads.Types.{Entity}
use ad_agent.Ads.Change.{Digests}
use ad_agent.Sandbox.Rules.{Calendar, HourFact}
use ad_agent.Sandbox.Evaluate.{evaluate_rules}
use ad_agent.Sandbox.Evaluate.Facts.{evaluate_rules-facts}
use ad_agent.Sandbox.Backend.{Backend}
use ad_agent.Sandbox.Backend.Kept.{IsSound, evaluate-IsSound}
use ad_agent.Sandbox.Simulation.{
  hour_length, half_hour, Delivery, Simulated, count_generated_hours, one_hour, run_rules,
  current_ads, advance_loop,
}
use ad_agent.Sandbox.Simulation.Hours.{count-append}

module _ {D G : Type 0} ⦃dec : Decimal D⦄ ⦃dig : Digests D⦄ (cal : Calendar D)
    (delivery : Delivery D G) where
  -- The account `t` is the account `s` some hours later, with new facts.
  pub record Later (hours : ℕ) (new : List (HourFact D)) (s t : Simulated D G) : Type 0 where
    pub clock : t.backend.clock ≡ s.backend.clock + hours * hour_length
    pub history : t.backend.rules.hour_facts ≡ s.backend.rules.hour_facts ++ new
    pub covered :
        count_generated_hours cal t.backend.rules.hour_facts
        ≤ count_generated_hours cal s.backend.rules.hour_facts + hours
    pub account : t.backend.account.id ≡ s.backend.account.id
    pub sound : IsSound s.backend → IsSound t.backend

  -- The delivery model gives every fact the hour that it is asked for.
  pub record GivesHour : Type 0 where
    pub hours :
        (ads : List (Entity D)) (h : ℕ) (b : Backend D) (g : G)
        → All (λ x. x.hour ≡ h) (delivery.generate ads h b g).0

  append-empty : (l : List (HourFact D)) → l ≡ l ++ []
  append-empty [] = refl
  append-empty (x ∷ l) = ap (λ r. x ∷ r) (append-empty l)

  one_hour-Later :
      GivesHour
      → (ads : List (Entity D)) (s : Simulated D G)
      → Later 1 (one_hour cal delivery ads s).0 s (one_hour cal delivery ads s).1
  unfolding one_hour
  one_hour-Later gives ads s =
      let hour = s.backend.clock + hour_length in
      let b = run_rules cal delivery (hour - half_hour) s.backend in
      let made = delivery.generate (current_ads cal delivery b.rules.entities ads) hour b s.model in
      let kept = evaluate_rules-facts cal (hour - half_hour) s.backend.rules in
      let full = record b.rules { hour_facts = b.rules.hour_facts ++ made.0 } in
      let facts : (evaluate_rules cal hour full).hour_facts ≡ s.backend.rules.hour_facts ++ made.0 =
        evaluate_rules-facts cal hour full ∙ ap (λ l. l ++ made.0) kept in
      record {
        clock = omega arith;
        history = facts;
        covered = rw facts (
            omega (
              arith,
              count-append cal hour s.backend.rules.hour_facts made.0
                  (gives.hours (current_ads cal delivery b.rules.entities ads) hour b s.model),
            ));
        account = refl;
        sound = λ h.
            evaluate-IsSound cal hour (record b { rules = full })
              (evaluate-IsSound cal (hour - half_hour) s.backend h);
      }

  pub no_hours : (s : Simulated D G) → Later 0 [] s s
  no_hours s = record {
    clock = omega arith;
    history = append-empty s.backend.rules.hour_facts;
    covered = omega arith;
    account = refl;
    sound = λ h. h;
  }

  then-Later :
      (n m : ℕ) (xs ys : List (HourFact D)) (s t u : Simulated D G)
      → Later n xs s t
      → Later m ys t u
      → Later (n + m) (xs ++ ys) s u
  then-Later n m xs ys s t u a b = record {
    clock = omega (arith, a.clock, b.clock);
    history =
        b.history ∙ ap (λ l. l ++ ys) a.history ∙ append_assoc s.backend.rules.hour_facts xs ys;
    covered = omega (arith, a.covered, b.covered);
    account = b.account ∙ a.account;
    sound = λ h. b.sound (a.sound h);
  }

  -- What a run of the loop returns.
  pub record Looped (n : ℕ) (created : List (HourFact D)) (s : Simulated D G)
      (r : Result (List (HourFact D)) × Simulated D G) : Type 0 where
    pub passed : ℕ
    pub some_hours : passed ≤ n
    pub made : List (HourFact D)
    pub later : Later passed made s r.1
    pub whole : {all : List (HourFact D)} → r.0 ≡ ok all → (passed ≡ n) × (all ≡ created ++ made)

  pub advance_loop-Looped :
      GivesHour
      → (cancelled : ℕ → Bool) (n step : ℕ) (ads : List (Entity D)) (created : List (HourFact D))
        (s : Simulated D G)
      → Looped n created s (advance_loop cal delivery cancelled n step ads created s)
  unfolding advance_loop
  advance_loop-Looped gives cancelled zero step ads created s = record {
    passed = 0;
    some_hours = omega arith;
    made = [];
    later = no_hours s;
    whole = λ h. (refl, sym (ok-injective h) ∙ append-empty created);
  }
  advance_loop-Looped gives cancelled (suc n) step ads created s =
      elim (Bool-cases (cancelled step)) [
        | inl stop ↦ rw stop (record {
          passed = 0;
          some_hours = omega arith;
          made = [];
          later = no_hours s;
          whole = λ h. cc h;
        })
        | inr go ↦
            let next = one_hour cal delivery ads s in
            let first = one_hour-Later gives ads s in
            let rest =
              advance_loop-Looped gives cancelled n (suc step) ads (created ++ next.0) next.1 in
            rw go (record {
              passed = 1 + rest.passed;
              some_hours = omega (arith, rest.some_hours);
              made = next.0 ++ rest.made;
              later = then-Later 1 rest.passed next.0 rest.made s next.1 _ first rest.later;
              whole = λ h.
                  let (all_hours, all_facts) = rest.whole h in
                  (omega (arith, all_hours), all_facts ∙ append_assoc created next.0 rest.made);
            })
      ]
