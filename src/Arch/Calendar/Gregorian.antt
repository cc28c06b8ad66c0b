-- ===== src/Arch/Calendar/Gregorian.antt =====
-- The Gregorian calendar, as the clock has to agree with it: leap years, the lengths of the months,
-- and the number of a day counted from 0001-01-01.
use urchin.Prelude.{
  ℕ, zero, suc, ◌+◌, ◌-◌, ◌*◌, ◌/◌, ◌%◌, ◌≤◌, ◌≡◌, arith, Bool, not, List, [], ◌∷◌, get_or, ◌&&◌,
  ◌||◌, ◌==◌, if◌then◌else◌,
}

abbrev pub is_leap : ℕ → Bool
is_leap y = (y % 4 == 0) && not (y % 100 == 0) || (y % 400 == 0)

-- The lengths of the months of a year, with a blank before January.
abbrev pub month_lengths : ℕ → List ℕ
month_lengths y =
    let february = if is_leap y then 29 else 28 in
    0 ∷ 31 ∷ february ∷ 31 ∷ 30 ∷ 31 ∷ 30 ∷ 31 ∷ 31 ∷ 30 ∷ 31 ∷ 30 ∷ 31 ∷ []

abbrev pub days_in_month : ℕ → ℕ → ℕ
days_in_month y m = get_or (month_lengths y) m 0

abbrev pub days_before_month : ℕ → ℕ → ℕ
days_before_month y zero = 0
days_before_month y (suc m) = days_in_month y m + days_before_month y m

-- Days of the years 1 to `y`.
abbrev pub days_to_year : ℕ → ℕ
days_to_year y = y * 365 + y / 4 - y / 100 + y / 400

abbrev pub day_number : ℕ → ℕ → ℕ → ℕ
day_number y m d = days_to_year (y - 1) + days_before_month y m + (d - 1)

-- The number of 1970-01-01.
abbrev pub epoch : ℕ
epoch = 719162

pub record IsDate (y m d : ℕ) : Type 0 where
  pub year_in : 1 ≤ y
  pub month_in : (1 ≤ m) × (m ≤ 12)
  pub day_in : (1 ≤ d) × (d ≤ days_in_month y m)

pub days_to_year-suc :
    (y : ℕ) → days_to_year (suc y) ≡ days_to_year y + (if is_leap (suc y) then 366 else 365)
days_to_year-suc y = ground arith

unfoldable pub leap_day : ℕ → ℕ
leap_day y = if is_leap y then 1 else 0

pub days_to_year-pred : (y : ℕ) → 1 ≤ y → days_to_year y ≡ days_to_year (y - 1) + 365 + leap_day y
unfolding leap_day
days_to_year-pred zero h = absurd (omega arith)
days_to_year-pred (suc y) h =
    let back : suc y - 1 ≡ y = omega arith in rw back (ground (arith, days_to_year-suc y))
