-- ===== src/Arch/Calendar/Correct.antt =====
-- The clock's date is the Gregorian date of the second.
use urchin.Prelude.{
  ℕ, zero, suc, ◌+◌, ◌-◌, ◌*◌, ◌/◌, ◌%◌, ◌^◌, ◌≤◌, ◌<◌, ◌≡◌, refl, ap, arith, true, false,
  Bool-cases, inl, inr, Option, none, some, u8, u16,
}
use urchin.Arch.Calendar.{
  CalendarTime, YearSplit, split_year, split_month, day_from_march, get_calendar_from_epoch,
  with_time,
}
use urchin.Arch.Calendar.Gregorian.{
  is_leap, days_in_month, days_before_month, days_to_year, day_number, epoch, IsDate,
  days_to_year-suc, leap_day, days_to_year-pred,
}
use urchin.Arch.Calendar.Split.{IsSplit, split_year-IsSplit}

days_in_month-lt : (y m : ℕ) → days_in_month y m < 256
days_in_month-lt y m = ground arith

-- `date` is the date of the day that is `n` days after 0000-03-01.
abbrev IsDateOf : ℕ → Option (ℕ × ℕ × ℕ) → Type 0
IsDateOf n none = ⊥
IsDateOf n (some (y, m, d)) = IsDate y m d × (day_number y m d + 306 ≡ n) × (y ≤ n / 365 + 1)

split_month_leap :
    (n : ℕ) (s : YearSplit)
    → 366 ≤ n
    → s.leap ≡ true
    → n + 1 ≡ days_to_year s.year
    → is_leap s.year ≡ true
    → IsDateOf n (split_month s)
unfolding split_month
split_month_leap n s pos l e leap =
    rw l (omega (arith, before_march), omega (arith, leap_number), omega arith)
  where
    before_march : (1 ≤ s.year) × (29 ≤ days_in_month s.year 2)
    before_march = ground arith

    leap_number : day_number s.year 2 29 + 306 ≡ n
    leap_number = ground (arith, days_to_year-suc (s.year - 1))

module _ (n : ℕ) (s : YearSplit) (pos : 366 ≤ n) (l : s.leap ≡ false)
    (e : n ≡ days_to_year s.year + s.day) (fits : s.day < 365) where
  year_pos : 1 ≤ s.year
  year_pos = ground arith

  from_march :
      (before m d : ℕ)
      → 3 ≤ m
      → m ≤ 12
      → days_before_month s.year m ≡ before + 59 + leap_day s.year
      → before ≤ s.day
      → s.day - before < days_in_month s.year m
      → d ≡ s.day - before + 1
      → IsDateOf n (some (s.year, m, d))
  from_march before m d lo hi months after inside day = (
    record { year_in = year_pos; month_in = omega arith; day_in = omega arith },
    omega (arith, days_to_year-pred s.year year_pos),
    omega arith,
  )

  next_year :
      (before m d : ℕ)
      → 1 ≤ m
      → m ≤ 2
      → days_before_month (s.year + 1) m + 306 ≡ before
      → before ≤ s.day
      → s.day - before < days_in_month (s.year + 1) m
      → d ≡ s.day - before + 1
      → IsDateOf n (some (s.year + 1, m, d))
  next_year before m d lo hi months after inside day = (
    record { year_in = omega arith; month_in = omega arith; day_in = omega arith },
    omega (arith, back),
    omega arith,
  )
    where
      back : days_to_year (s.year + 1 - 1) ≡ days_to_year s.year
      back = ap days_to_year (omega arith)

  -- One case for each month from March on.
  in_month : (k : ℕ) → (s.day * 5 + 2) / 153 ≡ k → IsDateOf n (split_month s)
  unfolding split_month leap_day
  in_month zero h =
      rw (l, h, h)
        (from_march 0 3 _ (omega arith) (omega arith) (ground arith) (omega arith) (omega arith)
          (omega arith))
  in_month (suc zero) h =
      rw (l, h, h)
        (from_march 31 4 _ (omega arith) (omega arith) (ground arith) (omega arith) (omega arith)
          (omega arith))
  in_month (suc (suc zero)) h =
      rw (l, h, h)
        (from_march 61 5 _ (omega arith) (omega arith) (ground arith) (omega arith) (omega arith)
          (omega arith))
  in_month (suc (suc (suc zero))) h =
      rw (l, h, h)
        (from_march 92 6 _ (omega arith) (omega arith) (ground arith) (omega arith) (omega arith)
          (omega arith))
  in_month (suc (suc (suc (suc zero)))) h =
      rw (l, h, h)
        (from_march 122 7 _ (omega arith) (omega arith) (ground arith) (omega arith) (omega arith)
          (omega arith))
  in_month (suc (suc (suc (suc (suc zero))))) h =
      rw (l, h, h)
        (from_march 153 8 _ (omega arith) (omega arith) (ground arith) (omega arith) (omega arith)
          (omega arith))
  in_month (suc (suc (suc (suc (suc (suc zero)))))) h =
      rw (l, h, h)
        (from_march 184 9 _ (omega arith) (omega arith) (ground arith) (omega arith) (omega arith)
          (omega arith))
  in_month (suc (suc (suc (suc (suc (suc (suc zero))))))) h =
      rw (l, h, h)
        (from_march 214 10 _ (omega arith) (omega arith) (ground arith) (omega arith) (omega arith)
          (omega arith))
  in_month (suc (suc (suc (suc (suc (suc (suc (suc zero)))))))) h =
      rw (l, h, h)
        (from_march 245 11 _ (omega arith) (omega arith) (ground arith) (omega arith) (omega arith)
          (omega arith))
  in_month (suc (suc (suc (suc (suc (suc (suc (suc (suc zero))))))))) h =
      rw (l, h, h)
        (from_march 275 12 _ (omega arith) (omega arith) (ground arith) (omega arith) (omega arith)
          (omega arith))
  in_month (suc (suc (suc (suc (suc (suc (suc (suc (suc (suc zero)))))))))) h =
      rw (l, h, h)
        (next_year 306 1 _ (omega arith) (omega arith) refl (omega arith) (ground arith)
          (omega arith))
  in_month (suc (suc (suc (suc (suc (suc (suc (suc (suc (suc (suc zero))))))))))) h =
      rw (l, h, h)
        (next_year 337 2 _ (omega arith) (omega arith) refl (omega arith) (ground arith)
          (omega arith))
  in_month (suc (suc (suc (suc (suc (suc (suc (suc (suc (suc (suc (suc k)))))))))))) h =
      absurd (omega arith)

-- Every day from the year 1 on has its Gregorian date.
split_month-IsDateOf : (n : ℕ) → 366 ≤ n → IsDateOf n (split_month (split_year n))
split_month-IsDateOf n pos = elim (Bool-cases (split_year n).leap) [
  | inl l ↦ split_month_leap n (split_year n) pos l (is.0 l).0 (is.0 l).1
  | inr l ↦
      in_month n (split_year n) pos l (is.1 l).0 (is.1 l).1 (((split_year n).day * 5 + 2) / 153)
        refl
]
  where
    is : IsSplit n (split_year n)
    is = split_year-IsSplit n

-- What a right answer of the clock is: a Gregorian date whose day, counted from the epoch, is that of
-- the second, with the time within the day.
pub record IsTimeOf (sec : ℕ) (c : CalendarTime) : Type 0 where
  pub date : IsDate c.year c.month c.day
  pub day_is : day_number c.year c.month c.day ≡ epoch + sec / 86400
  pub time_is : c.hour * 3600 + c.min * 60 + c.sec ≡ sec % 86400
  pub time_in : (c.hour < 24) × (c.min < 60) × (c.sec < 60)

-- Up to the second 2 ^ 40, in the year 36812, the conversion does not panic and gives the Gregorian
-- date and time of the second.
pub get_calendar_from_epoch-IsTimeOf :
    (sec : ℕ)
    → sec < 2 ^ 40
    → (c : CalendarTime) × (get_calendar_from_epoch sec ≡ some c) × IsTimeOf sec c
get_calendar_from_epoch-IsTimeOf sec h =
    settle (split_month (split_year (day_from_march sec))) refl
      (split_month-IsDateOf (day_from_march sec) (omega arith))
  where
    settle :
        (date : Option (ℕ × ℕ × ℕ))
        → split_month (split_year (day_from_march sec)) ≡ date
        → IsDateOf (day_from_march sec) date
        → (c : CalendarTime) × (get_calendar_from_epoch sec ≡ some c) × IsTimeOf sec c
    settle none e is = absurd is
    settle (some (y, m, d)) e is = (
      with_time sec (y, m, d),
      returns,
      record {
        date = rw (year_fits, month_fits, day_fits) is.0;
        day_is = rw (year_fits, month_fits, day_fits) (omega arith);
        time_is = omega arith;
        time_in = omega arith;
      },
    )
      where
        year_fits : u16 y ≡ y
        year_fits = omega arith

        month_fits : u8 m ≡ m
        month_fits = omega arith

        day_fits : u8 d ≡ d
        day_fits = omega (arith, days_in_month-lt y m)

        returns : get_calendar_from_epoch sec ≡ some (with_time sec (y, m, d))
        returns = unfold get_calendar_from_epoch in ground arith
