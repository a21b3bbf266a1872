-- ===== src/Service/Exec/Triple.antt =====
-- What holds after a method that has succeeded, from what held before it.
use ad_agent.Prelude.{String, ◌≡◌, refl, subst, Bool, true, false, if◌then◌else◌}
use ad_agent.Prelude.Result.{Result, ok, err}
use ad_agent.Service.Exec.{Exec, ◌>>=◌, proceed, pure, raise, finally, reject}

abbrev pub Post : {S A : Type 0} → (A → S → Type 0) → Result A → S → Type 0
Post Q (ok a) s = Q a s
Post Q (err e) s = Unit

pub record Triple {S A : Type 0} (P : S → Type 0) (m : Exec S A) (Q : A → S → Type 0) : Type 0 where
  pub at : (s : S) → P s → Post Q (m s).0 (m s).1

-- The value of a run that has succeeded.
pub Triple-result :
    {S A : Type 0} {P : S → Type 0} {m : Exec S A} (Q : A → S → Type 0)
    → Triple P m Q
    → (s : S) {a : A} → P s
    → (m s).0 ≡ ok a
    → Q a (m s).1
Triple-result {m = m} Q t s h e = subst (λ r. Post Q r (m s).1) e (t.at s h)

cleaned :
    {S A : Type 0} (Q : A → S → Type 0) (r : Result A) (s s' : S)
    → ((a : A) → Q a s → Q a s')
    → Post Q r s
    → Post Q r s'
cleaned Q (ok a) s s' c h = c a h
cleaned Q (err e) s s' c h = tt

proceed-Post :
    {S A B : Type 0} (Q : A → S → Type 0) (Q' : B → S → Type 0) (r : Result A) (s : S)
    (k : A → Exec S B)
    → Post Q r s
    → ((a : A) → Triple (Q a) (k a) Q')
    → Post Q' (proceed r k s).0 (proceed r k s).1
proceed-Post Q Q' (ok a) s k h f = (f a).at s h
proceed-Post Q Q' (err e) s k h f = tt

module _ {S A : Type 0} {P : S → Type 0} {Q : A → S → Type 0} where
  pub Triple-pure : (a : A) → ((s : S) → P s → Q a s) → Triple P (pure a) Q
  unfolding pure
  Triple-pure a h = record { at = h }

  pub Triple-if :
      (b : Bool) (m n : Exec S A)
      → (b ≡ true → Triple P m Q)
      → (b ≡ false → Triple P n Q)
      → Triple P (if b then m else n) Q
  Triple-if true m n h k = h refl
  Triple-if false m n h k = k refl

  pub Triple-reject :
      (b : Bool) (x : String) (k : Unit {0} → Exec S A)
      → (b ≡ false → Triple P (k tt) Q)
      → Triple P (reject b x >>= k) Q
  unfolding ◌>>=◌ reject
  Triple-reject true x k h = record { at = λ s _. tt }
  Triple-reject false x k h = h refl

  pub Triple-finally :
      (m : Exec S A) (clean : S → S)
      → ((a : A) (s : S) → Q a s → Q a (clean s))
      → Triple P m Q
      → Triple P (finally m clean) Q
  unfolding finally
  Triple-finally m clean c t = record {
    at = λ s h. cleaned Q (m s).0 (m s).1 (clean (m s).1) (λ a. c a (m s).1) (t.at s h);
  }

  pub Triple-bind :
      {B : Type 0} {Q' : B → S → Type 0} (m : Exec S A) (k : A → Exec S B)
      → Triple P m Q
      → ((a : A) → Triple (Q a) (k a) Q')
      → Triple P (m >>= k) Q'
  unfolding ◌>>=◌
  Triple-bind {Q' = Q'} m k t f = record {
    at = λ s h. proceed-Post Q Q' (m s).0 (m s).1 k (t.at s h) f;
  }

module _ {S A B : Type 0} {P : S → Type 0} {Q : B → S → Type 0} where
  -- What follows a check knows that it has passed.
  pub Triple-raise :
      (r : Result A) (k : A → Exec S B)
      → ((a : A) → r ≡ ok a → Triple P (k a) Q)
      → Triple P (raise r >>= k) Q
  unfolding ◌>>=◌ raise
  Triple-raise (ok a) k h = h a refl
  Triple-raise (err e) k h = record { at = λ s _. tt }

-- A fact that the state has nothing to do with.
pub Triple-given :
    {S A : Type 0} {P : S → Type 0} {F : Type 0} {m : Exec S A} {Q : A → S → Type 0}
    → (F → Triple P m Q)
    → Triple (λ s. P s × F) m Q
Triple-given h = record { at = λ s g. (h g.1).at s g.0 }

-- Two conclusions from one run.
pub Triple-both :
    {S A : Type 0} {P : S → Type 0} {m : Exec S A} {Q Q' : A → S → Type 0}
    → Triple P m Q
    → Triple P m Q'
    → Triple P m (λ a s. Q a s × Q' a s)
Triple-both {m = m} h k = record { at = λ s p. paired _ _ (m s).1 (m s).0 (h.at s p) (k.at s p) }
  where
    paired :
        {S A : Type 0} (Q Q' : A → S → Type 0) (s : S) (r : Result A)
        → Post Q r s
        → Post Q' r s
        → Post (λ a s. Q a s × Q' a s) r s
    paired Q Q' s (ok a) x y = (x, y)
    paired Q Q' s (err e) x y = tt

-- A weaker conclusion.
pub Triple-weaken :
    {S A : Type 0} {P : S → Type 0} {m : Exec S A} {Q Q' : A → S → Type 0}
    → ((a : A) (s : S) → Q a s → Q' a s)
    → Triple P m Q
    → Triple P m Q'
Triple-weaken {m = m} w h = record { at = λ s p. weaker _ _ (m s).1 (m s).0 w (h.at s p) }
  where
    weaker :
        {S A : Type 0} (Q Q' : A → S → Type 0) (s : S) (r : Result A)
        → ((a : A) (s : S) → Q a s → Q' a s)
        → Post Q r s
        → Post Q' r s
    weaker Q Q' s (ok a) w x = w a s x
    weaker Q Q' s (err e) w x = tt
