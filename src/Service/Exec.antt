-- ===== src/Service/Exec.antt =====
-- Methods over a state that may fail. What was written before a failure stays written.
pub mod Ensures
pub mod Completes
pub mod Triple
use ad_agent.Prelude.{String, Bool, true, false}
use ad_agent.Prelude.Result.{Result, ok, err}

abbrev pub Exec : Type 0 → Type 0 → Type 0
Exec S A = S → Result A × S

module _ {S A B : Type 0} where
  -- Go on with the value, or stop with the error.
  abbrev pub proceed : Result A → (A → Exec S B) → Exec S B
  proceed (ok a) k s = k a s
  proceed (err e) k s = (err e, s)

  infixl 5 ◌>>=◌ ◌>>◌
  unfoldable pub ◌>>=◌ : Exec S A → (A → Exec S B) → Exec S B
  ◌>>=◌ m k s = let (r, s') = m s in proceed r k s'

  abbrev pub ◌>>◌ : Exec S A → Exec S B → Exec S B
  m >> k = m >>= λ _. k

module _ {S A : Type 0} where
  unfoldable pub pure : A → Exec S A
  pure a s = (ok a, s)

  unfoldable pub fail : String → Exec S A
  fail e s = (err e, s)

  -- An error of a called function is returned.
  unfoldable pub raise : Result A → Exec S A
  raise r s = (r, s)

  -- `defer`: the clean-up runs after the method, whatever it returned.
  unfoldable pub finally : Exec S A → (S → S) → Exec S A
  finally m clean s = let (r, s') = m s in (r, clean s')

-- `if b { return errors.New(e) }`
unfoldable pub reject : {S : Type 0} → Bool → String → Exec S (Unit {0})
reject true e s = (err e, s)
reject false e s = (ok tt, s)
