-- ===== src/Ads/Decimal.antt =====
-- github.com/shopspring/decimal, a third-party package: a parameter of every definition that uses
-- it. `D` stands for `decimal.Decimal`; two values may be `Equal` without being the same value,
-- as 1.0 and 1 are.
use ad_agent.Prelude.{ℕ, Bool, true, false, Ordering}

pub record Decimal (D : Type 0) : Type 0 where
  pub cmp : D → D → Ordering  -- Cmp
  pub of_int : ℕ → D  -- NewFromInt, at the numbers from 0 on
  pub plus : D → D → D  -- Add
  pub minus : D → D → D  -- Sub
  pub times : D → D → D  -- Mul
  pub over : D → D → D  -- Div, which panics at a zero divisor
  pub abs : D → D  -- Abs
  pub neg : D → D  -- Neg

module _ {D : Type 0} ⦃dec : Decimal D⦄ where
  abbrev pub less_than : D → D → Bool
  less_than a b = elim (dec.cmp a b) [ Ordering.lt ↦ true | _ ↦ false ]

  abbrev pub greater_than : D → D → Bool
  greater_than a b = elim (dec.cmp a b) [ Ordering.gt ↦ true | _ ↦ false ]

  abbrev pub equal : D → D → Bool
  equal a b = elim (dec.cmp a b) [ Ordering.eq ↦ true | _ ↦ false ]

  -- The sign tests, by the package's documentation: d > 0, d < 0 and d == 0.
  abbrev pub is_positive : D → Bool
  is_positive d = greater_than d (dec.of_int 0)

  abbrev pub is_negative : D → Bool
  is_negative d = less_than d (dec.of_int 0)

  abbrev pub is_zero : D → Bool
  is_zero d = equal d (dec.of_int 0)
