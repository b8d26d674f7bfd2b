-- ===== src/Rtc.antt =====
-- The CMOS clock: crates/bedrock-vmx/src/devices/rtc.rs.
pub mod Calendar
pub mod Loops
pub mod Days
pub mod Clock
use bedrock.Base.{
  ℕ, zero, suc, ◌+◌, ◌-◌, ◌*◌, ◌/◌, ◌%◌, ◌==◌, ◌&&◌, ◌||◌, Bool, true, false, not, List, [], ◌∷◌,
  bit_or, shl, u8, u32, u64, ltb, match_key, if◌then◌else◌,
}

pub record RtcState : Type 0 where
  pub index : ℕ
  pub base_time : ℕ

unfoldable pub default_rtc : RtcState
default_rtc = record { index = 0; base_time = 1704067200 }

unfoldable pub set_time : ℕ → RtcState → RtcState
set_time timestamp s = record s { base_time = timestamp }

unfoldable pub to_bcd : ℕ → ℕ
to_bcd value = bit_or (shl 8 (value / 10) 4) (value % 10)

unfoldable pub is_leap_year : ℕ → Bool
is_leap_year year = (year % 4 == 0 && not (year % 100 == 0)) || year % 400 == 0

unfoldable pub days_in_year : ℕ → ℕ
days_in_year year = if is_leap_year year then 366 else 365

-- The `loop` over the years, on fuel; `year` is a u32.
unfoldable pub year_loop : ℕ → ℕ → ℕ → ℕ × ℕ
year_loop zero year remaining_days = (year, remaining_days)
year_loop (suc fuel) year remaining_days =
    let next = year_loop fuel (u32 (year + 1)) (remaining_days - days_in_year year) in
    if ltb remaining_days (days_in_year year) then (year, remaining_days) else next

unfoldable pub days_in_months : Bool → List ℕ
days_in_months leap =
    31 ∷ (if leap then 29 else 28) ∷ 31 ∷ 30 ∷ 31 ∷ 30 ∷ 31 ∷ 31 ∷ 30 ∷ 31 ∷ 30 ∷ 31 ∷ []

-- The `for` over the months.
unfoldable pub month_loop : List ℕ → ℕ → ℕ → ℕ × ℕ
month_loop [] month remaining_days = (month, remaining_days)
month_loop (days_in_month ∷ rest) month remaining_days =
    let next = month_loop rest (u8 (month + 1)) (remaining_days - days_in_month) in
    if ltb remaining_days days_in_month then (month, remaining_days) else next

-- (year, month, day, day_of_week)
pub record Date : Type 0 where
  pub year : ℕ
  pub month : ℕ
  pub day : ℕ
  pub day_of_week : ℕ

-- Every year has at least 365 days: `days` rounds are enough.
unfoldable pub days_to_date : ℕ → Date
days_to_date days =
    let (year, remaining) = year_loop (suc days) 1970 days in
    let (month, left) = month_loop (days_in_months (is_leap_year year)) 1 remaining in
    record {
      year = year;
      month = month;
      day = u8 (left + 1);
      day_of_week = u8 ((days + 4) % 7 + 1);
    }

-- `checked_div`: a frequency of 0 gives 0.
unfoldable pub elapsed_secs : ℕ → ℕ → ℕ
elapsed_secs emulated_tsc tsc_frequency =
    if tsc_frequency == 0 then 0 else emulated_tsc / tsc_frequency

-- The registers' values at a second.
unfoldable pub register_at : ℕ → ℕ → ℕ
register_at secs index =
    let time_of_day = secs % 86400 in
    let hours = u8 (time_of_day / 3600) in
    let minutes = u8 (time_of_day % 3600 / 60) in
    let seconds = u8 (time_of_day % 60) in
    let date = days_to_date (secs / 86400) in
    match_key index
      ((0, to_bcd seconds)
        ∷ (2, to_bcd minutes)
        ∷ (4, to_bcd hours)
        ∷ (6, to_bcd date.day_of_week)
        ∷ (7, to_bcd date.day)
        ∷ (8, to_bcd date.month)
        ∷ (9, to_bcd (u8 (date.year % 100)))
        ∷ (10, 0)
        ∷ (11, 2)
        ∷ (12, 0)
        ∷ (13, 128)
        ∷ (50, to_bcd (u8 (date.year / 100)))
        ∷ [])
      0

unfoldable pub read_register_with_tsc : RtcState → ℕ → ℕ → ℕ
read_register_with_tsc s emulated_tsc tsc_frequency =
    register_at (u64 (s.base_time + elapsed_secs emulated_tsc tsc_frequency)) s.index
