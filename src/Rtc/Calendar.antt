-- ===== src/Rtc/Calendar.antt =====
-- The Gregorian calendar by its own rules, a day after another from Thursday, 1 January 1970, on. It is what
-- the clock is measured by, and takes nothing from the clock's code but the record of a date.
use bedrock.Base.{ℕ, zero, suc, ◌+◌, ◌%◌, ◌==◌, ◌||◌, Bool, true, false, ltb, if◌then◌else◌}
use bedrock.Rtc.{Date}

-- Every fourth year, but of the years of a century only every fourth.
unfoldable pub is_leap : ℕ → Bool
is_leap year = if year % 400 == 0 then true else (if year % 100 == 0 then false else year % 4 == 0)

-- February has 28 or 29 days; April, June, September and November have 30.
unfoldable pub month_length : Bool → ℕ → ℕ
month_length leap month =
    if month == 2
    then (if leap then 29 else 28)
    else (if month == 4 || (month == 6 || (month == 9 || month == 11)) then 30 else 31)

-- The weekday runs from 1, Sunday, to 7.
unfoldable pub tomorrow : Date → Date
tomorrow d =
    let weekday = if d.day_of_week == 7 then 1 else d.day_of_week + 1 in
    if ltb d.day (month_length (is_leap d.year) d.month)
    then record { year = d.year; month = d.month; day = d.day + 1; day_of_week = weekday }
    else (if ltb d.month 12
        then record { year = d.year; month = d.month + 1; day = 1; day_of_week = weekday }
        else record { year = d.year + 1; month = 1; day = 1; day_of_week = weekday })

-- The date `days` days after 1 January 1970.
unfoldable pub date_after : ℕ → Date
date_after zero = record { year = 1970; month = 1; day = 1; day_of_week = 5 }
date_after (suc days) = tomorrow (date_after days)
