-- ===== src/Prelude/Flip.antt =====
-- Three-way comparison, from the other side.
use Prim.Native.Nat.{ℕ, Ordering, compare}
use Prim.Native.Char.{code}
use Prim.Native.String.{String, then}
use Prim.Native.String
use Prim.Native.String.compare
use mathlib.Core.Path.{◌≡◌, refl}
use native.Mathlib.Omega.{arith}

abbrev pub flip : Ordering → Ordering
flip Ordering.lt = Ordering.gt
flip Ordering.eq = Ordering.eq
flip Ordering.gt = Ordering.lt

compare-flip : (a b : ℕ) → compare b a ≡ flip (compare a b)
compare-flip a b = ground arith

then-flip : (x y : Ordering) → then (flip x) (flip y) ≡ flip (then x y)
then-flip Ordering.lt y = refl
then-flip Ordering.eq y = refl
then-flip Ordering.gt y = refl

pub text_compare-flip : (s t : String) → String.compare t s ≡ flip (String.compare s t)
text_compare-flip String.[] String.[] = rw String.compare.nil-nil refl
text_compare-flip String.[] (String.◌∷◌ d t) =
    rw (String.compare.cons-nil d t, String.compare.nil-cons d t) refl
text_compare-flip (String.◌∷◌ c s) String.[] =
    rw (String.compare.cons-nil c s, String.compare.nil-cons c s) refl
text_compare-flip (String.◌∷◌ c s) (String.◌∷◌ d t) =
    rw
      (
        String.compare.cons-cons c d s t,
        String.compare.cons-cons d c t s,
        text_compare-flip s t,
        compare-flip (code c) (code d),
        then-flip (compare (code c) (code d)) (String.compare s t),
      )
      refl
