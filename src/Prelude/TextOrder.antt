-- ===== src/Prelude/TextOrder.antt =====
-- The order of texts is transitive.
use Prim.Native.Char.{code}
use Prim.Native.String
use Prim.Native.String.{compare, then}
use Prim.Native.String.compare
use Prim.Native.Nat.{ℕ, Ordering, ◌<◌}
use Prim.Native.Nat
use mathlib.Core.Path.{◌≡◌, sym, ◌∙◌}
use native.Mathlib.Omega.{arith}

-- The first answer of two comparisons, for numbers and then for the rest of the texts.
then_trans :
    (a b c : ℕ) (p q r : Ordering)
    → (p ≡ Ordering.lt → q ≡ Ordering.lt → r ≡ Ordering.lt)
    → then (Nat.compare a b) p ≡ Ordering.lt
    → then (Nat.compare b c) q ≡ Ordering.lt
    → then (Nat.compare a c) r ≡ Ordering.lt
then_trans a b c p q r f h k = ground (arith, h, k, f)

pub compare_trans :
    (s t u : String.String)
    → compare s t ≡ Ordering.lt
    → compare t u ≡ Ordering.lt
    → compare s u ≡ Ordering.lt
compare_trans s String.[] String.[] h k = ground (arith, sym compare.nil-nil ∙ k)
compare_trans String.[] String.[] (String.◌∷◌ e u) h k = compare.nil-cons e u
compare_trans String.[] (String.◌∷◌ d t) String.[] h k =
    ground (arith, sym (compare.cons-nil d t) ∙ k)
compare_trans String.[] (String.◌∷◌ d t) (String.◌∷◌ e u) h k = compare.nil-cons e u
compare_trans (String.◌∷◌ c s) String.[] (String.◌∷◌ e u) h k =
    ground (arith, sym (compare.cons-nil c s) ∙ h)
compare_trans (String.◌∷◌ c s) (String.◌∷◌ d t) String.[] h k =
    ground (arith, sym (compare.cons-nil d t) ∙ k)
compare_trans (String.◌∷◌ c s) (String.◌∷◌ d t) (String.◌∷◌ e u) h k =
    let h' = sym (compare.cons-cons c d s t) ∙ h in
    let k' = sym (compare.cons-cons d e t u) ∙ k in
    compare.cons-cons c e s u
    ∙ then_trans (code c) (code d) (code e) (compare s t) (compare t u) (compare s u)
        (compare_trans s t u) h' k'
