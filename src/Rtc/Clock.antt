-- ===== src/Rtc/Clock.antt =====
-- The clock's registers together: they show the second that the clock stands at.
use bedrock.Base.{ℕ, ◌+◌, ◌*◌, ◌/◌, ◌%◌, ◌^◌, ◌<◌, ◌≡◌, sym, ap, ◌∙◌, u8, u64, shl, bit_or, arith}
use mathlib.Core.Path.{subst}
use bedrock.Base.Bits.Field.{bit_or_sum}
use bedrock.Rtc.{
  RtcState, Date, to_bcd, days_to_date, elapsed_secs, register_at, read_register_with_tsc,
}
use bedrock.Rtc.Calendar.{date_after}
use bedrock.Rtc.Days.{days_to_date-date_after, date_after-bounds}

abbrev pub from_bcd : ℕ → ℕ
from_bcd b = b / 16 * 10 + b % 16

bcd_round_trip : (v : ℕ) → v < 100 → from_bcd (to_bcd v) ≡ v
unfolding to_bcd
bcd_round_trip v h =
    let high : shl 8 (v / 10) 4 ≡ v / 10 * 2 ^ 4 = omega arith in
    let e : bit_or (shl 8 (v / 10) 4) (v % 10) ≡ v / 10 * 2 ^ 4 + v % 10 =
      ap (λ (t : ℕ). bit_or t (v % 10)) high ∙ bit_or_sum 4 (v / 10) (v % 10) (omega arith) in
    omega (arith, e)

-- The register read with its index selected, out of BCD.
unfoldable pub shown : RtcState → ℕ → ℕ → ℕ → ℕ
shown s emulated_tsc tsc_frequency index =
    from_bcd (read_register_with_tsc (record s { index = index }) emulated_tsc tsc_frequency)

-- The date in the registers, given what each of them shows.
abbrev pub date_shown : (ℕ → ℕ) → Date
date_shown r = record { year = r 50 * 100 + r 9; month = r 8; day = r 7; day_of_week = r 6 }

-- The registers show the date `days` days after 1 January 1970, and a time of that day, in seconds.
pub record Shows (days time : ℕ) (r : ℕ → ℕ) : Type 0 where
  pub date : date_shown r ≡ date_after days
  pub time_of_day : r 4 * 3600 + r 2 * 60 + r 0 ≡ time
  pub minutes : r 2 < 60
  pub seconds : r 0 < 60

date_eq :
    (d e : Date)
    → d.year ≡ e.year
    → d.month ≡ e.month
    → d.day ≡ e.day
    → d.day_of_week ≡ e.day_of_week
    → d ≡ e
date_eq d e y m k w =
    ap (λ (x : ℕ). record d { year = x }) y
    ∙ ap (λ (x : ℕ). record d { year = e.year; month = x }) m
    ∙ ap (λ (x : ℕ). record d { year = e.year; month = e.month; day = x }) k
    ∙ ap (λ (x : ℕ). record e { day_of_week = x }) w

module _ (secs : ℕ) (h : 1970 + secs / 86400 < 2 ^ 32)
    (y : (date_after (secs / 86400)).year < 10000) where
  hour : from_bcd (register_at secs 4) ≡ secs % 86400 / 3600
  unfolding register_at
  hour = bcd_round_trip (u8 (secs % 86400 / 3600)) (omega arith) ∙ omega arith

  minute : from_bcd (register_at secs 2) ≡ secs % 86400 % 3600 / 60
  unfolding register_at
  minute = bcd_round_trip (u8 (secs % 86400 % 3600 / 60)) (omega arith) ∙ omega arith

  second : from_bcd (register_at secs 0) ≡ secs % 86400 % 60
  unfolding register_at
  second = bcd_round_trip (u8 (secs % 86400 % 60)) (omega arith) ∙ omega arith

  -- A field of the date, by way of the calendar.
  field :
      (f : Date → ℕ)
      → f (date_after (secs / 86400)) < 100
      → from_bcd (to_bcd (f (days_to_date (secs / 86400)))) ≡ f (date_after (secs / 86400))
  field f small =
      rw (days_to_date-date_after (secs / 86400) h)
        (bcd_round_trip (f (date_after (secs / 86400))) small)

  year :
      from_bcd (register_at secs 50) * 100 + from_bcd (register_at secs 9)
      ≡ (date_after (secs / 86400)).year
  unfolding register_at
  year =
      let high = field (λ d. u8 (d.year / 100)) (omega (arith, y)) in
      let low = field (λ d. u8 (d.year % 100)) (omega arith) in omega (arith, y, high, low)

  month : from_bcd (register_at secs 8) ≡ (date_after (secs / 86400)).month
  unfolding register_at
  month = field (λ d. d.month) (omega (arith, (date_after-bounds (secs / 86400)).0))

  day : from_bcd (register_at secs 7) ≡ (date_after (secs / 86400)).day
  unfolding register_at
  day = field (λ d. d.day) (omega (arith, (date_after-bounds (secs / 86400)).1))

  weekday : from_bcd (register_at secs 6) ≡ (date_after (secs / 86400)).day_of_week
  unfolding register_at
  weekday = field (λ d. d.day_of_week) (omega (arith, (date_after-bounds (secs / 86400)).2))

  registers-Shows : Shows (secs / 86400) (secs % 86400) (λ i. from_bcd (register_at secs i))
  registers-Shows = record {
    date = date_eq (date_shown (λ i. from_bcd (register_at secs i))) _ year month day weekday;
    time_of_day = omega (arith, hour, minute, second);
    minutes = omega (arith, minute);
    seconds = omega (arith, second);
  }

-- The registers of the clock, read one after another at one instant before the year 10000 and the second 2^38,
-- show the base time plus the seconds that have gone by: the year, the month, the day and the weekday that
-- the Gregorian calendar comes to, and the time of that day with less than 60 minutes and seconds.
pub shown_clock :
    (s : RtcState) (tsc freq : ℕ)
    → s.base_time + elapsed_secs tsc freq < 2 ^ 38
    → (date_after ((s.base_time + elapsed_secs tsc freq) / 86400)).year < 10000
    → Shows
        ((s.base_time + elapsed_secs tsc freq) / 86400)
        ((s.base_time + elapsed_secs tsc freq) % 86400)
        (shown s tsc freq)
unfolding shown read_register_with_tsc
shown_clock s tsc freq h y =
    let secs = s.base_time + elapsed_secs tsc freq in
    let fits : u64 secs ≡ secs = omega (arith, h) in
    subst (λ t. Shows (secs / 86400) (secs % 86400) (λ i. from_bcd (register_at t i))) (sym fits)
      (registers-Shows secs (omega (arith, h)) y)
