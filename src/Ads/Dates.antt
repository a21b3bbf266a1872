-- ===== src/Ads/Dates.antt =====
-- What the source uses of Go's `time` on calendar days: time.Parse(time.DateOnly, s), as the number
-- of days from the first of January of the year 0.
use ad_agent.Prelude.{
  ℕ, zero, suc, ◌+◌, ◌-◌, ◌*◌, ◌/◌, ◌%◌, String, Bool, not, ◌&&◌, ◌||◌, Option, none, some, List,
  [], ◌∷◌, leb, eqb, if◌then◌else◌,
}
use ad_agent.Prelude.Text.{runes}

abbrev is_digit : ℕ → Bool
is_digit c = leb 48 c && leb c 57

abbrev pub is_leap : ℕ → Bool
is_leap y = eqb (y % 4) 0 && (not (eqb (y % 100) 0) || eqb (y % 400) 0)

abbrev pub days_in : ℕ → ℕ → ℕ
days_in y m =
    if eqb m 2
    then if is_leap y then 29 else 28
    else if eqb m 4 || eqb m 6 || eqb m 9 || eqb m 11
    then 30
    else 31

-- The days of the months before `m`, and of the years before `y`.
abbrev months_before : ℕ → ℕ → ℕ
months_before y zero = 0
months_before y (suc m) = months_before y m + (if eqb m 0 then 0 else days_in y m)

abbrev years_before : ℕ → ℕ
years_before y = 365 * y + (y + 3) / 4 - (y + 99) / 100 + (y + 399) / 400

abbrev day_number : ℕ → ℕ → ℕ → Option ℕ
day_number y m d =
    if leb 1 m && leb m 12 && leb 1 d && leb d (days_in y m)
    then some (years_before y + months_before y m + (d - 1))
    else none

date_of : List ℕ → Option ℕ
date_of (a ∷ b ∷ c ∷ d ∷ x ∷ e ∷ f ∷ y ∷ g ∷ h ∷ []) =
    if is_digit a
      && is_digit b
      && is_digit c
      && is_digit d
      && eqb x 45
      && is_digit e
      && is_digit f
      && eqb y 45
      && is_digit g
      && is_digit h
    then day_number (1000 * (a - 48) + 100 * (b - 48) + 10 * (c - 48) + (d - 48))
        (10 * (e - 48) + (f - 48)) (10 * (g - 48) + (h - 48))
    else none
date_of _ = none

unfoldable pub parse_date : String → Option ℕ
unfolding date_of
parse_date s = date_of (runes s)
