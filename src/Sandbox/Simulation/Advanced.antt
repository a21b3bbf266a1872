-- ===== src/Sandbox/Simulation/Advanced.antt =====
-- internal/sandbox/simulation.go: what Advance does to an account.
use ad_agent.Prelude.{
  ℕ, ◌+◌, ◌≤◌, ◌≡◌, refl, ap, sym, ◌∙◌, Bool, ◌||◌, List, [], arith, inl, inr, ltb,
}
use ad_agent.Prelude.Result.{
  Result, ok, err, refuse, bind_parts, refuse_passed, ok-injective, Result-cases,
}
use ad_agent.Prelude.Sorting.{sort}
use ad_agent.Ads.Decimal.{Decimal}
use ad_agent.Ads.Change.{Digests}
use ad_agent.Sandbox.Rules.{Calendar, HourFact}
use ad_agent.Sandbox.Backend.{Backend, by_id}
use ad_agent.Sandbox.Simulation.{
  max_advance_hours, max_generated_hours, Delivery, Simulated, AdvanceResult, count_generated_hours,
  ads_of, advanced, refused_advance, advance,
}
use ad_agent.Sandbox.Simulation.Later.{Later, GivesHour, no_hours, Looped, advance_loop-Looped}

module _ {D G : Type 0} ⦃dec : Decimal D⦄ ⦃dig : Digests D⦄ (cal : Calendar D)
    (delivery : Delivery D G) where
  -- What Advance returns, and the account that it leaves.
  pub record Advanced (hours : ℕ) (s : Simulated D G) (r : Result (AdvanceResult D) × Simulated D G)
      : Type 0 where
    pub passed : ℕ
    pub made : List (HourFact D)
    pub later : Later cal delivery passed made s r.1
    pub some_hours : passed ≤ hours
    pub limited :
        count_generated_hours cal s.backend.rules.hour_facts ≤ max_generated_hours
        → count_generated_hours cal r.1.backend.rules.hour_facts ≤ max_generated_hours
    pub answer :
        {a : AdvanceResult D}
        → r.0 ≡ ok a
        → (1 ≤ hours)
          × (hours ≤ max_advance_hours)
          × (passed ≡ hours)
          × (a.previous_time ≡ s.backend.clock)
          × (a.advanced_by ≡ hours)
          × (a.created ≡ made)

  finished-Advanced :
      (hours : ℕ) (s : Simulated D G) (r : Result (List (HourFact D)) × Simulated D G)
      → 1 ≤ hours
      → hours ≤ max_advance_hours
      → count_generated_hours cal s.backend.rules.hour_facts + hours ≤ max_generated_hours
      → Looped cal delivery hours [] s r
      → Advanced hours s (advanced cal delivery s.backend.clock hours r)
  unfolding advanced
  finished-Advanced hours s (err e, t) low high room l = record {
    passed = l.passed;
    made = l.made;
    later = l.later;
    some_hours = l.some_hours;
    limited = λ h. omega (arith, l.later.covered, l.some_hours, room);
    answer = λ h. cc h;
  }
  finished-Advanced hours s (ok all, t) low high room l =
      let (all_hours, all_facts) = l.whole refl in
      record {
        passed = l.passed;
        made = l.made;
        later = record {
          clock = l.later.clock;
          history = l.later.history;
          covered = l.later.covered;
          account = l.later.account;
          sound = l.later.sound;
        };
        some_hours = l.some_hours;
        limited = λ h. omega (arith, l.later.covered, l.some_hours, room);
        answer = λ h.
            let same = ok-injective h in
            (
              low,
              high,
              all_hours,
              sym (ap (λ a. a.previous_time) same),
              sym (ap (λ a. a.advanced_by) same),
              sym (ap (λ a. a.created) same) ∙ all_facts,
            );
      }

  admitted_hours :
      (ended : Bool) (hours : ℕ) (b : Backend D) {u : Unit {0}}
      → refused_advance cal delivery ended hours b ≡ ok u
      → (1 ≤ hours)
        × (hours ≤ max_advance_hours)
        × (count_generated_hours cal b.rules.hour_facts + hours ≤ max_generated_hours)
  unfolding refused_advance
  admitted_hours ended hours b h =
      let outside = ltb hours 1 || ltb max_advance_hours hours in
      let full = ltb max_generated_hours (count_generated_hours cal b.rules.hour_facts + hours) in
      let (_, within, h₁) = bind_parts (refuse outside _) _ h in
      let (_, _, h₂) = bind_parts (refuse ended _) _ h₁ in
      let (_, room, _) = bind_parts (refuse full _) _ h₂ in
      let inside = refuse_passed outside _ within in
      let fits = refuse_passed full _ room in
      (ground (arith, inside), ground (arith, inside), ground (arith, fits))

  -- Advance moves the clock by whole hours, by as many as it is asked for when it answers, of which
  -- there are 1 to 744, and by no more when the caller's context ends on the way. It appends facts
  -- to those there are and changes none of them, answers with those it has appended, keeps the
  -- account's entities in a hierarchy, and never passes the limit of 8760 generated hours, where
  -- the delivery model gives each fact the hour that it is asked for.
  pub advance-Advanced :
      GivesHour cal delivery
      → (ended : Bool) (cancelled : ℕ → Bool) (hours : ℕ) (s : Simulated D G)
      → Advanced hours s (advance cal delivery ended cancelled hours s)
  unfolding advance advanced
  advance-Advanced gives ended cancelled hours s =
      elim (Result-cases (refused_advance cal delivery ended hours s.backend)) [
        | inl (e, stop) ↦
            rw (stop, advance)
              (record {
                passed = 0;
                made = [];
                later = no_hours cal delivery s;
                some_hours = omega arith;
                limited = λ h. h;
                answer = λ h. cc h;
              })
        | inr (u, go) ↦
            let (low, high, room) = admitted_hours ended hours s.backend go in
            rw (go, advance)
              (finished-Advanced hours s _ low high room (
                advance_loop-Looped cal delivery gives cancelled hours 0
                  (sort by_id (ads_of cal delivery s.backend.rules.entities)) [] s))
      ]
