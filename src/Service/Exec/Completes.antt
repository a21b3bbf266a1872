-- ===== src/Service/Exec/Completes.antt =====
-- Methods that return from every state, what holds of the value, and what follows from an error: with
-- ⊥ for the latter, the method always returns a value.
use ad_agent.Prelude.{◌≡◌, refl, Bool, true, false, if◌then◌else◌}
use ad_agent.Prelude.Result.{Result, ok, err}
use ad_agent.Service.Exec.{Exec, ◌>>=◌, proceed, pure}

abbrev pub Done : {A : Type 0} → Type 0 → (A → Type 0) → Result A → Type 0
Done E Q (ok a) = Q a
Done E Q (err e) = E

pub record Completes {S A : Type 0} (E : Type 0) (Q : A → Type 0) (m : Exec S A) : Type 0 where
  pub at : (s : S) → Done E Q (m s).0

module _ {S A E : Type 0} {Q : A → Type 0} where
  pub Completes-pure : (a : A) → Q a → Completes {S = S} E Q (pure a)
  unfolding pure
  Completes-pure a h = record { at = λ s. h }

  pub Completes-if :
      (b : Bool) (m n : Exec S A)
      → Completes E Q m
      → Completes E Q n
      → Completes E Q (if b then m else n)
  Completes-if true m n h k = h
  Completes-if false m n h k = k

  pub Completes-when :
      (b : Bool) (m n : Exec S A)
      → (b ≡ true → Completes E Q m)
      → Completes E Q n
      → Completes E Q (if b then m else n)
  Completes-when true m n h k = h refl
  Completes-when false m n h k = k

  proceed-Done :
      {B : Type 0} {Q' : B → Type 0} (r : Result A) (s : S) (k : A → Exec S B)
      → Done E Q r
      → ((a : A) → Q a → Completes E Q' (k a))
      → Done E Q' (proceed r k s).0
  proceed-Done (ok a) s k h f = (f a h).at s
  proceed-Done (err e) s k h f = h

  pub Completes-bind :
      {B : Type 0} {Q' : B → Type 0} (m : Exec S A) (k : A → Exec S B)
      → Completes E Q m
      → ((a : A) → Q a → Completes E Q' (k a))
      → Completes E Q' (m >>= k)
  unfolding ◌>>=◌
  Completes-bind m k h f = record { at = λ s. proceed-Done (m s).0 (m s).1 k (h.at s) f }
