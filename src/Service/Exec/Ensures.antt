-- ===== src/Service/Exec/Ensures.antt =====
-- A reflexive and transitive relation between the states before and after a method, whatever the
-- method returns: one rule for each way to build a method.
use ad_agent.Prelude.{String, ◌≡◌, refl, Bool, true, false, if◌then◌else◌}
use ad_agent.Prelude.Result.{Result, ok, err}
use ad_agent.Service.Exec.{Exec, ◌>>=◌, pure, fail, raise, finally, reject, proceed}

pub record Ensures {S A : Type 0} (R : S → S → Type 0) (m : Exec S A) : Type 0 where
  pub at : (s : S) → R s (m s).1

pub record Order {S : Type 0} (R : S → S → Type 0) : Type 0 where
  pub here : (s : S) → R s s
  pub then_to : (s t u : S) → R s t → R t u → R s u

module _ {S A : Type 0} {R : S → S → Type 0} (o : Order R) where
  pub Ensures-pure : (a : A) → Ensures R (pure a)
  unfolding pure
  Ensures-pure a = record { at = o.here }

  pub Ensures-fail : (x : String) → Ensures R (fail {A = A} x)
  unfolding fail
  Ensures-fail x = record { at = o.here }

  pub Ensures-raise : (r : Result A) → Ensures R (raise r)
  unfolding raise
  Ensures-raise r = record { at = o.here }

  pub Ensures-finally :
      (m : Exec S A) (clean : S → S)
      → Ensures R m
      → ((s : S) → R s (clean s))
      → Ensures R (finally m clean)
  unfolding finally
  Ensures-finally m clean h c = record {
    at = λ s. o.then_to s (m s).1 (clean (m s).1) (h.at s) (c (m s).1);
  }

  pub Ensures-if :
      (b : Bool) (m n : Exec S A)
      → (b ≡ true → Ensures R m)
      → (b ≡ false → Ensures R n)
      → Ensures R (if b then m else n)
  Ensures-if true m n h k = h refl
  Ensures-if false m n h k = k refl

  -- What follows `reject` knows that the test has failed.
  pub Ensures-reject :
      (b : Bool) (x : String) (k : Unit {0} → Exec S A)
      → (b ≡ false → Ensures R (k tt))
      → Ensures R (reject b x >>= k)
  unfolding ◌>>=◌ reject
  Ensures-reject true x k h = record { at = o.here }
  Ensures-reject false x k h = h refl

module _ {S A : Type 0} {R : S → S → Type 0} (o : Order R) where
  -- The same two at one state.
  pub reject_from :
      (b : Bool) (x : String) (k : Unit {0} → Exec S A) (s : S)
      → (b ≡ false → R s (k tt s).1)
      → R s ((reject b x >>= k) s).1
  unfolding ◌>>=◌ reject
  reject_from true x k s h = o.here s
  reject_from false x k s h = h refl

  pub if_from :
      (b : Bool) (m n : Exec S A) (s : S)
      → (b ≡ true → R s (m s).1)
      → (b ≡ false → R s (n s).1)
      → R s ((if b then m else n) s).1
  if_from true m n s h k = h refl
  if_from false m n s h k = k refl

module _ {S A B : Type 0} {R : S → S → Type 0} (o : Order R) where
  proceed_lem :
      (s s' : S) (r : Result A) (k : A → Exec S B)
      → R s s'
      → ((a : A) → r ≡ ok a → R s' (k a s').1)
      → R s (proceed r k s').1
  proceed_lem s s' (ok a) k h f = o.then_to s s' (k a s').1 h (f a refl)
  proceed_lem s s' (err e) k h f = h

  -- The rest of a method runs where the first part has left off, on what it has returned.
  pub bind_from :
      (m : Exec S A) (k : A → Exec S B) (s : S)
      → R s (m s).1
      → ((a : A) → (m s).0 ≡ ok a → R (m s).1 (k a (m s).1).1)
      → R s ((m >>= k) s).1
  unfolding ◌>>=◌
  bind_from m k s h f = proceed_lem s (m s).1 (m s).0 k h f

  pub Ensures-bind :
      (m : Exec S A) (k : A → Exec S B)
      → Ensures R m
      → ((a : A) → Ensures R (k a))
      → Ensures R (m >>= k)
  Ensures-bind m k h f = record { at = λ s. bind_from m k s (h.at s) (λ a _. (f a).at (m s).1) }
