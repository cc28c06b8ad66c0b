-- ===== src/Arch/Calendar/Tests.antt =====
-- Seconds with a known date, and the instance of the theorem.
use urchin.Prelude.{ℕ, ◌≡◌, refl, arith, some}
use urchin.Arch.Calendar.{CalendarTime, get_calendar_from_epoch, split_year, split_month}
use urchin.Arch.Calendar.Correct.{IsTimeOf, get_calendar_from_epoch-IsTimeOf}

abbrev date : ℕ → ℕ → ℕ → ℕ → ℕ → ℕ → CalendarTime
date y mo d h mi s = record { year = y; month = mo; day = d; hour = h; min = mi; sec = s }

known_dates :
    (get_calendar_from_epoch 0 ≡ some (date 1970 1 1 0 0 0))
    × (get_calendar_from_epoch 951_782_400 ≡ some (date 2000 2 29 0 0 0))
    × (get_calendar_from_epoch 1_709_210_096 ≡ some (date 2024 2 29 12 34 56))
    × (get_calendar_from_epoch 4_107_542_399 ≡ some (date 2100 2 28 23 59 59))
unfolding get_calendar_from_epoch split_year split_month
known_dates = (refl, refl, refl, refl)

get_calendar_from_epoch-IsTimeOf_example :
    (c : CalendarTime) × (get_calendar_from_epoch 1_709_210_096 ≡ some c) × IsTimeOf 1_709_210_096 c
get_calendar_from_epoch-IsTimeOf_example =
    get_calendar_from_epoch-IsTimeOf 1_709_210_096 (omega arith)
