-- ===== src/Arch/Calendar.antt =====
-- `get_calendar_from_epoch` of src/arch/x86_64/kvmclock.rs, on u64 values.
pub mod Gregorian
pub mod Split
pub mod Correct
mod Tests
use urchin.Prelude.{
  ℕ, ◌+◌, ◌-◌, ◌*◌, ◌/◌, ◌%◌, ◌^◌, List, [], ◌∷◌, Option, none, some, Bool, true, false, ◌==◌, ltb,
  if◌then◌else◌, get_elem?, u8, u16, u64,
}

pub record CalendarTime : Type 0 where
  pub year : ℕ
  pub month : ℕ
  pub day : ℕ
  pub hour : ℕ
  pub min : ℕ
  pub sec : ℕ

-- Days from the first of March to the first of the month, from March on.
abbrev pub days_of_month : List ℕ
days_of_month = 0 ∷ 31 ∷ 61 ∷ 92 ∷ 122 ∷ 153 ∷ 184 ∷ 214 ∷ 245 ∷ 275 ∷ 306 ∷ 337 ∷ []

abbrev pub days_of_one_year : ℕ
days_of_one_year = 365

abbrev pub days_of_four_year : ℕ
days_of_four_year = days_of_one_year * 4 + 1

abbrev pub days_of_hundred_year : ℕ
days_of_hundred_year = days_of_four_year * 25 - 1

abbrev pub days_of_four_hundred_year : ℕ
days_of_four_hundred_year = days_of_hundred_year * 4 + 1

-- The values of `year`, `day` and `leap` at the `if leap`.
pub record YearSplit : Type 0 where
  pub year : ℕ
  pub day : ℕ
  pub leap : Bool

pub split_year : ℕ → YearSplit
split_year day_from_march =
    let year = 400 * (day_from_march / days_of_four_hundred_year) in
    let day = day_from_march % days_of_four_hundred_year in
    let n = day / days_of_hundred_year in
    let year' = year + n * 100 in
    let day' = day % days_of_hundred_year in
    let year'' = year' + day' / days_of_four_year * 4 in
    let day'' = day' % days_of_four_year in
    let n' = day'' / days_of_one_year in
    let year''' = year'' + n' in
    let day''' = day'' % days_of_one_year in
    if n == 4
    then record { year = year'; day = day'; leap = true }
    else record { year = year'''; day = day'''; leap = (if n' == 4 then true else false) }

-- Year, month and day of the month; `none` where the index of `DAYS_OF_MONTH` is out of range.
pub split_month : YearSplit → Option (ℕ × ℕ × ℕ)
split_month s =
    let month_diff = (s.day * 5 + 2) / 153 in
    if s.leap then some (s.year, 2, 29) else elim (get_elem? days_of_month month_diff) [
      | none ↦ none
      | some before ↦
          let day = u64 (u64 (s.day + 2 ^ 64 - before) + 1) in
          if ltb 9 month_diff
          then some (s.year + 1, month_diff - 9, day)
          else some (s.year, month_diff + 3, day)
    ]

abbrev pub with_time : ℕ → ℕ × ℕ × ℕ → CalendarTime
with_time sec (year, month, day) =
    let second = sec % 60 in
    let minute = sec / 60 % 60 in
    let hour = sec / 3600 % 24 in
    record {
      year = u16 year;
      month = u8 month;
      day = u8 day;
      hour = u8 hour;
      min = u8 minute;
      sec = u8 second;
    }

abbrev pub day_from_march : ℕ → ℕ
day_from_march sec = sec / (24 * 60 * 60) + (1969 * 365 + 1969 / 4 - 1969 / 100 + 1969 / 400 + 306)

pub get_calendar_from_epoch : ℕ → Option CalendarTime
get_calendar_from_epoch sec = elim (split_month (split_year (day_from_march sec))) [
  | none ↦ none
  | some date ↦ some (with_time sec date)
]
