-- ===== src/Scenarios/Numbers.antt =====
-- Whole numbers as the amounts of the scenarios.
use ad_agent.Prelude.{
  ℕ, suc, ◌+◌, ◌-◌, ◌*◌, ◌/◌, ◌≡◌, refl, leb, compare, Ordering, if◌then◌else◌, arith,
}
use ad_agent.Prelude.Flip.{flip}
use ad_agent.Ads.Decimal.{Decimal}
use ad_agent.Ads.Analysis.Ranking.{CmpFlips}

-- `negsuc n` is -(n + 1).
pub data Whole : Type 0 where
  pos negsuc : ℕ → Whole

abbrev pub difference : ℕ → ℕ → Whole
difference a b = if leb b a then pos (a - b) else negsuc (b - a - 1)

abbrev pub negate : Whole → Whole
negate (pos a) = difference 0 a
negate (negsuc a) = pos (suc a)

abbrev pub sum : Whole → Whole → Whole
sum (pos a) (pos b) = pos (a + b)
sum (pos a) (negsuc b) = difference a (suc b)
sum (negsuc a) (pos b) = difference b (suc a)
sum (negsuc a) (negsuc b) = negsuc (suc (a + b))

abbrev pub product : Whole → Whole → Whole
product (pos a) (pos b) = pos (a * b)
product (pos a) (negsuc b) = difference 0 (a * suc b)
product (negsuc a) (pos b) = difference 0 (suc a * b)
product (negsuc a) (negsuc b) = pos (suc a * suc b)

abbrev pub quotient : Whole → Whole → Whole
quotient (pos a) (pos b) = pos (a / b)
quotient (pos a) (negsuc b) = difference 0 (a / suc b)
quotient (negsuc a) (pos b) = difference 0 (suc a / b)
quotient (negsuc a) (negsuc b) = pos (suc a / suc b)

abbrev pub magnitude : Whole → Whole
magnitude (pos a) = pos a
magnitude (negsuc a) = pos (suc a)

abbrev pub compare_whole : Whole → Whole → Ordering
compare_whole (pos a) (pos b) = compare a b
compare_whole (pos a) (negsuc b) = Ordering.gt
compare_whole (negsuc a) (pos b) = Ordering.lt
compare_whole (negsuc a) (negsuc b) = compare b a

instance abbrev pub whole_decimal : Decimal Whole
whole_decimal = record {
  cmp = compare_whole;
  of_int = pos;
  plus = sum;
  minus = λ a b. sum a (negate b);
  times = product;
  over = quotient;
  abs = magnitude;
  neg = negate;
}

compare_flips : (a b : Whole) → compare_whole b a ≡ flip (compare_whole a b)
compare_flips (pos a) (pos b) = ground arith
compare_flips (pos a) (negsuc b) = refl
compare_flips (negsuc a) (pos b) = refl
compare_flips (negsuc a) (negsuc b) = ground arith

pub whole_flips : CmpFlips Whole
whole_flips = record { at = compare_flips }
