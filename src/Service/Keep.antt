-- ===== src/Service/Keep.antt =====
-- A relation between states that the calls of the service keep is kept by every method made of
-- them: one rule for each way to build a method.
use ad_agent.Prelude.{ℕ, String, ◌≡◌, Bool, if◌then◌else◌}
use ad_agent.Prelude.Result.{Result}
use ad_agent.Ads.Change.{ChangeState, staged, Change}
use ad_agent.Service.Exec.{Exec, ◌>>=◌, pure, fail, raise, reject}
use ad_agent.Service.Exec.Ensures.{
  Ensures, Order, Ensures-pure, Ensures-fail, Ensures-raise, Ensures-if, Ensures-reject,
  Ensures-bind,
}
use ad_agent.Service.Platform.{
  Platform, Env, ask, call, attempt, fetch, lease, release, transition, insert_change,
}
use ad_agent.Service.Sending.{Quiet, ask-Quiet, call-Quiet, attempt-Quiet}

-- What is asked of the relation: the calls that send nothing keep it.
pub record Kept {D W : Type 0} ⦃p : Platform D W⦄ (R : Env D W → Env D W → Type 0) : Type 1 where
  pub order : Order R
  pub quiet : (A : Type 0) (m : Exec (Env D W) A) → Ensures Quiet m → Ensures R m
  pub fetches : (id : String) → Ensures R (fetch id)
  pub leases : (id owner : String) (until : ℕ) → Ensures R (lease id owner until)
  pub releases : (id owner : String) (e : Env D W) → R e (release id owner e)
  pub transitions : (from : ChangeState) (c : Change D) → Ensures R (transition from c)
  pub inserts : (c : Change D) → c.state ≡ staged → Ensures R (insert_change c)

module _ {D W : Type 0} ⦃p : Platform D W⦄ {R : Env D W → Env D W → Type 0} (κ : Kept R) where
  pub keep_fetch : (id : String) → Ensures R (fetch id)
  keep_fetch = κ.fetches

  pub keep_lease : (id owner : String) (until : ℕ) → Ensures R (lease id owner until)
  keep_lease = κ.leases

  pub keep_transition : (from : ChangeState) (c : Change D) → Ensures R (transition from c)
  keep_transition = κ.transitions

  pub keep_insert : (c : Change D) → c.state ≡ staged → Ensures R (insert_change c)
  keep_insert = κ.inserts

module _ {D W A : Type 0} ⦃p : Platform D W⦄ {R : Env D W → Env D W → Type 0} (κ : Kept R) where
  pub keep_pure : (a : A) → Ensures R (pure a)
  keep_pure = Ensures-pure κ.order

  pub keep_fail : (x : String) → Ensures R (fail {A = A} x)
  keep_fail = Ensures-fail κ.order

  pub keep_raise : (r : Result A) → Ensures R (raise r)
  keep_raise = Ensures-raise κ.order

  pub keep_if :
      (b : Bool) (m n : Exec (Env D W) A)
      → Ensures R m
      → Ensures R n
      → Ensures R (if b then m else n)
  keep_if b m n h k = Ensures-if κ.order b m n (λ _. h) (λ _. k)

  pub keep_reject :
      (b : Bool) (x : String) (k : Unit {0} → Exec (Env D W) A)
      → Ensures R (k tt)
      → Ensures R (reject b x >>= k)
  keep_reject b x k h = Ensures-reject κ.order b x k (λ _. h)

  pub keep_ask : (f : W → A × W) → Ensures R (ask {D = D} f)
  keep_ask f = κ.quiet A _ (ask-Quiet f)

  pub keep_call : (f : W → Result A × W) → Ensures R (call {D = D} f)
  keep_call f = κ.quiet A _ (call-Quiet f)

  pub keep_attempt : (f : W → Result A × W) → Ensures R (attempt {D = D} f)
  keep_attempt f = κ.quiet (Result A) _ (attempt-Quiet f)

module _ {D W A B : Type 0} ⦃p : Platform D W⦄ {R : Env D W → Env D W → Type 0} (κ : Kept R) where
  pub keep_bind :
      (m : Exec (Env D W) A) (k : A → Exec (Env D W) B)
      → Ensures R m
      → ((a : A) → Ensures R (k a))
      → Ensures R (m >>= k)
  keep_bind = Ensures-bind κ.order

pub ruleset keep_rules = (
  keep_pure, keep_fail, keep_raise, keep_if, keep_reject, keep_ask, keep_call, keep_attempt,
  keep_bind, keep_fetch, keep_lease, keep_transition, keep_insert,
)
