-- ===== src/Prelude/Result.antt =====
-- Go's `(value, error)` returns. An error is known by its text, as in `errors.New("session_busy")`.
use Prim.Native.String.{String}
use mathlib.Core.Path.{◌≡◌, refl}
use mathlib.Core.Logic.{◌⊎◌, inl, inr}
use mathlib.Core.Bool.{Bool, true, false}

pub data Result {ℓ} (A : Type ℓ) : Type ℓ where
  ok : A → Result A
  err : String → Result A

module _ {ℓ κ} {A : Type ℓ} {B : Type κ} where
  infixl 5 ◌>>=◌
  -- An error stops the chain.
  abbrev pub ◌>>=◌ : Result A → (A → Result B) → Result B
  err message >>= rest = err message
  ok value >>= rest = rest value

-- `if b { return errors.New(e) }`
abbrev pub refuse : Bool → String → Result (Unit {0})
refuse true e = err e
refuse false e = ok tt

-- A Go `error` alone: `ok tt` is nil.
abbrev pub Check : Type 0
Check = Result (Unit {0})

-- `if err != nil { return errors.New(e) }`
abbrev pub or_else {ℓ} : {A : Type ℓ} → Result A → String → Result A
or_else (ok a) e = ok a
or_else (err _) e = err e

infixl 5 ◌>>◌
-- A check, and what follows when it passes.
abbrev pub ◌>>◌ {ℓ} : {B : Type ℓ} → Check → Result B → Result B
check >> rest = check >>= λ passed. rest

-- A chain that has succeeded, part by part.
pub bind_parts {ℓ κ} :
    {A : Type ℓ} {B : Type κ} (r : Result A) (f : A → Result B) {b : B}
    → (r >>= f) ≡ ok b
    → (a : A) × (r ≡ ok a) × (f a ≡ ok b)
bind_parts (ok a) f h = (a, refl, h)
bind_parts (err e) f h = cc h

pub refuse_passed : (b : Bool) (e : String) {u : Unit {0}} → refuse b e ≡ ok u → b ≡ false
refuse_passed true e h = cc h
refuse_passed false e h = refl

pub or_else_passed {ℓ} :
    {A : Type ℓ} (r : Result A) (e : String) {a : A} → or_else r e ≡ ok a → r ≡ ok a
or_else_passed (ok a) e h = h
or_else_passed (err x) e h = cc h

pub ok-injective {ℓ} : {A : Type ℓ} {a b : A} → ok a ≡ ok b → a ≡ b
ok-injective h = cc h

pub Result-cases {ℓ} :
    {A : Type ℓ} (r : Result A) → ((e : String) × (r ≡ err e)) ⊎ ((a : A) × (r ≡ ok a))
Result-cases (ok a) = inr (a, refl)
Result-cases (err e) = inl (e, refl)
