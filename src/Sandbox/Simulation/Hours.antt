-- ===== src/Sandbox/Simulation/Hours.antt =====
-- internal/sandbox/simulation.go: how many hours the facts of an account cover.
use ad_agent.Prelude.{
  ℕ, suc, ◌≤◌, String, eq_refl, ◌≡◌, refl, true, List, [], ◌∷◌, ◌++◌, length, All, arith,
  Bool-cases, inl, inr, if◌then◌else◌,
}
use ad_agent.Ads.Decimal.{Decimal}
use ad_agent.Sandbox.Rules.{Calendar, HourFact}
use ad_agent.Sandbox.Simulation.{has_text, hours_seen, count_generated_hours}

module _ {D : Type 0} ⦃dec : Decimal D⦄ (cal : Calendar D) where
  hours_seen-append :
      (known : List String) (xs ys : List (HourFact D))
      → hours_seen cal known (xs ++ ys) ≡ hours_seen cal (hours_seen cal known xs) ys
  unfolding hours_seen
  hours_seen-append known [] ys = refl
  hours_seen-append known (x ∷ xs) ys =
      hours_seen-append
        (if has_text (cal.stamp x.hour) known then known else cal.stamp x.hour ∷ known) xs ys

  -- Facts of one hour add nothing where the hour is known, and one hour where it is not.
  known_hour :
      (h : ℕ) (known : List String) (facts : List (HourFact D))
      → has_text (cal.stamp h) known ≡ true
      → All (λ x. x.hour ≡ h) facts
      → hours_seen cal known facts ≡ known
  unfolding hours_seen
  known_hour h known [] k a = refl
  known_hour h known (x ∷ facts) k a =
      let there : has_text (cal.stamp x.hour) known ≡ true = rw a.0 k in
      rw there (known_hour h known facts k a.1)

  one_more_hour :
      (h : ℕ) (known : List String) (facts : List (HourFact D))
      → All (λ x. x.hour ≡ h) facts
      → length (hours_seen cal known facts) ≤ suc (length known)
  unfolding hours_seen
  one_more_hour h known [] a = omega arith
  one_more_hour h known (x ∷ facts) a = elim (Bool-cases (has_text (cal.stamp x.hour) known)) [
    | inl there ↦ rw there (one_more_hour h known facts a.1)
    | inr new ↦
        let now : has_text (cal.stamp h) (cal.stamp x.hour ∷ known) ≡ true =
          rw a.0 (ground (arith, eq_refl (cal.stamp h))) in
        rw (new, known_hour h (cal.stamp x.hour ∷ known) facts now a.1) (omega arith)
  ]

  -- An hour's facts raise the number of generated hours by one at most.
  pub count-append :
      (h : ℕ) (xs ys : List (HourFact D))
      → All (λ x. x.hour ≡ h) ys
      → count_generated_hours cal (xs ++ ys) ≤ suc (count_generated_hours cal xs)
  unfolding count_generated_hours
  count-append h xs ys a =
      rw (hours_seen-append [] xs ys) (one_more_hour h (hours_seen cal [] xs) ys a)
