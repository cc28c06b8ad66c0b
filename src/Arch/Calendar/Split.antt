-- ===== src/Arch/Calendar/Split.antt =====
-- Years that begin in March: what `split_year` finds.
use urchin.Prelude.{ℕ, ◌+◌, ◌<◌, ◌≡◌, arith, true, false}
use urchin.Arch.Calendar.{YearSplit, split_year}
use urchin.Arch.Calendar.Gregorian.{is_leap, days_to_year}

-- Where `leap` is set, the day is the last before the first of March of `year`, which is a leap year;
-- otherwise it is day `day` from the first of March of `year` on.
abbrev pub IsSplit : ℕ → YearSplit → Type 0
IsSplit n s =
    (s.leap ≡ true → (n + 1 ≡ days_to_year s.year) × (is_leap s.year ≡ true))
    × (s.leap ≡ false → (n ≡ days_to_year s.year + s.day) × (s.day < 365))

pub split_year-IsSplit : (n : ℕ) → IsSplit n (split_year n)
unfolding split_year
split_year-IsSplit n = ground arith
