-- ===== src/Rtc/Days.antt =====
-- The date of a day number is the one that the calendar comes to day by day.
use bedrock.Base.{
  ℕ, zero, suc, ◌+◌, ◌%◌, ◌^◌, ◌≤◌, ◌<◌, ◌≡◌, refl, sym, ap, ◌∙◌, Bool, true, false, List, [], ◌∷◌,
  length, take, get_or, u8, ltb, ltb→lt, ltb-false→le, if-cases, arith, ◌==◌, if◌then◌else◌,
}
use bedrock.Rtc.{
  Date, is_leap_year, days_in_year, year_loop, days_in_months, month_loop, days_to_date,
}
use bedrock.Rtc.Calendar.{is_leap, month_length, tomorrow, date_after}
use bedrock.Rtc.Loops.{
  span, sum, months_sum, span-snoc, le-span, take-sum, year_loop_lem, month_loop_lem,
}

is_leap-same : (year : ℕ) → is_leap year ≡ is_leap_year year
unfolding is_leap is_leap_year
is_leap-same year = ground arith

-- The list of months has the lengths of the calendar.
AreLengths : Bool → ℕ → List ℕ → Type 0
AreLengths leap month [] = Unit {0}
AreLengths leap month (x ∷ rest) = (x ≡ month_length leap month) × AreLengths leap (month + 1) rest

days_in_months-AreLengths : (leap : Bool) → AreLengths leap 1 (days_in_months leap)
unfolding AreLengths days_in_months month_length
days_in_months-AreLengths true = (
  refl,
  (refl, (refl, (refl, (refl, (refl, (refl, (refl, (refl, (refl, (refl, (refl, tt))))))))))),
)
days_in_months-AreLengths false = (
  refl,
  (refl, (refl, (refl, (refl, (refl, (refl, (refl, (refl, (refl, (refl, (refl, tt))))))))))),
)

get_or-AreLengths :
    (leap : Bool) (months : List ℕ) (month k : ℕ)
    → AreLengths leap month months
    → k < length months
    → get_or months k 0 ≡ month_length leap (month + k)
unfolding AreLengths
get_or-AreLengths leap [] month k h l = absurd (omega arith)
get_or-AreLengths leap (x ∷ rest) month zero (e, h) l =
    let same : month + 0 ≡ month = omega arith in rw same e
get_or-AreLengths leap (x ∷ rest) month (suc k) (e, h) l =
    let same : month + 1 + k ≡ month + suc k = omega arith in
    get_or-AreLengths leap rest (month + 1) k h (omega arith) ∙ ap (month_length leap) same

-- Where a date is: years after 1970, months and days before it, and their sum.
record IsAt (days : ℕ) (d : Date) : Type 0 where
  years : ℕ
  months : ℕ
  left : ℕ
  year_is : d.year ≡ 1970 + years
  month_is : d.month ≡ 1 + months
  day_is : d.day ≡ left + 1
  weekday_is : d.day_of_week ≡ (days + 4) % 7 + 1
  listed : months < 12
  inside : left < get_or (days_in_months (is_leap_year (1970 + years))) months 0
  total :
      span 1970 years + (sum (take months (days_in_months (is_leap_year (1970 + years)))) + left)
      ≡ days

twelve : (b : Bool) → length (days_in_months b) ≡ 12
unfolding days_in_months
twelve b = refl

take_twelve : (b : Bool) → sum (take 12 (days_in_months b)) ≡ sum (days_in_months b)
unfolding days_in_months sum
take_twelve b = refl

no_months : (months : List ℕ) → sum (take 0 months) ≡ 0
unfolding sum
no_months months = refl

no_span : (year : ℕ) → span year 0 ≡ 0
unfolding span
no_span year = refl

length_of_month :
    (year k : ℕ)
    → k < 12
    → month_length (is_leap year) (1 + k) ≡ get_or (days_in_months (is_leap_year year)) k 0
length_of_month year k h =
    ap (λ b. month_length b (1 + k)) (is_leap-same year)
    ∙ sym (
        get_or-AreLengths (is_leap_year year) (days_in_months (is_leap_year year)) 1 k
          (days_in_months-AreLengths (is_leap_year year))
          (omega (arith, twelve (is_leap_year year), h)))

next_weekday :
    (days w : ℕ) → w ≡ (days + 4) % 7 + 1 → (if w == 7 then 1 else w + 1) ≡ (suc days + 4) % 7 + 1
next_weekday days w e = ground (arith, e)

le-month_length : (b : Bool) (m : ℕ) → (1 ≤ month_length b m) × (month_length b m ≤ 31)
unfolding month_length
le-month_length true m = (ground arith, ground arith)
le-month_length false m = (ground arith, ground arith)

month_starts : (year k : ℕ) → k < 12 → 0 < get_or (days_in_months (is_leap_year year)) k 0
month_starts year k h =
    omega (arith, length_of_month year k h, (le-month_length (is_leap year) (1 + k)).0)

tomorrow-IsAt : (days : ℕ) (d : Date) → IsAt days d → IsAt (suc days) (tomorrow d)
unfolding tomorrow
tomorrow-IsAt days d i =
    let year = 1970 + i.years in
    let months = days_in_months (is_leap_year year) in
    let weekday = next_weekday days d.day_of_week i.weekday_is in
    let here : month_length (is_leap d.year) d.month ≡ get_or months i.months 0 =
      rw (i.year_is, i.month_is) (length_of_month year i.months i.listed) in
    let (step, below) =
      take-sum months i.months (omega (arith, i.listed, twelve (is_leap_year year))) in
    if-cases (IsAt (suc days)) (ltb d.day (month_length (is_leap d.year) d.month))
      (λ y. record {
        years = i.years;
        months = i.months;
        left = i.left + 1;
        year_is = i.year_is;
        month_is = i.month_is;
        day_is = omega (arith, i.day_is);
        weekday_is = weekday;
        listed = i.listed;
        inside = omega (arith, ltb→lt _ _ y, here, i.day_is);
        total = omega (arith, i.total);
      })
      (λ n.
        let last : get_or months i.months 0 ≡ i.left + 1 =
          omega (arith, ltb-false→le _ _ n, here, i.day_is, i.inside) in
        if-cases (IsAt (suc days)) (ltb d.month 12)
          (λ y.
            let more : suc i.months < 12 = omega (arith, ltb→lt _ _ y, i.month_is) in
            record {
              years = i.years;
              months = suc i.months;
              left = 0;
              year_is = i.year_is;
              month_is = omega (arith, i.month_is);
              day_is = refl;
              weekday_is = weekday;
              listed = more;
              inside = month_starts year (suc i.months) more;
              total = omega (arith, i.total, step, last);
            })
          (λ december.
            let eleven : suc i.months ≡ 12 =
              omega (arith, ltb-false→le _ _ december, i.month_is, i.listed) in
            let all : sum (take 12 months) ≡ sum months = take_twelve (is_leap_year year) in
            record {
              years = suc i.years;
              months = 0;
              left = 0;
              year_is = omega (arith, i.year_is);
              month_is = refl;
              day_is = refl;
              weekday_is = weekday;
              listed = omega arith;
              inside = month_starts (1970 + suc i.years) 0 (omega arith);
              total = omega (
                arith,
                span-snoc 1970 i.years,
                i.total,
                step,
                last,
                ap (λ (k : ℕ). sum (take k months)) eleven,
                all,
                months_sum year,
                no_months (days_in_months (is_leap_year (1970 + suc i.years))),
              );
            }))

date_after-IsAt : (days : ℕ) → IsAt days (date_after days)
unfolding date_after
date_after-IsAt zero = record {
  years = 0;
  months = 0;
  left = 0;
  year_is = refl;
  month_is = refl;
  day_is = refl;
  weekday_is = refl;
  listed = omega arith;
  inside = month_starts 1970 0 (omega arith);
  total = omega (arith, no_span 1970, no_months (days_in_months (is_leap_year (1970 + 0))));
}
date_after-IsAt (suc days) = tomorrow-IsAt days (date_after days) (date_after-IsAt days)

date_eq :
    (y y' m m' k k' w w' : ℕ)
    → y ≡ y'
    → m ≡ m'
    → k ≡ k'
    → w ≡ w'
    → ◌≡◌ {A = Date}
        (record { year = y; month = m; day = k; day_of_week = w })
        (record { year = y'; month = m'; day = k'; day_of_week = w' })
date_eq y y' m m' k k' w w' a b c d = rw (a, b, c, d) refl

-- The date of a number of days is the calendar's date so many days after Thursday, 1 January 1970, weekday
-- and all, as long as the years stay in their u32.
pub days_to_date-date_after :
    (days : ℕ) → 1970 + days < 2 ^ 32 → days_to_date days ≡ date_after days
unfolding days_to_date
days_to_date-date_after days h =
    let i = date_after-IsAt days in
    let year = 1970 + i.years in
    let months = days_in_months (is_leap_year year) in
    let rest = sum (take i.months months) + i.left in
    let (step, below) =
      take-sum months i.months (omega (arith, i.listed, twelve (is_leap_year year))) in
    let in_year : rest < days_in_year year =
      omega (arith, step, below, i.inside, months_sum year) in
    let years : year_loop (suc days) 1970 days ≡ (year, rest) =
      ap (year_loop (suc days) 1970) (sym i.total)
      ∙ year_loop_lem i.years (suc days) 1970 rest (omega (arith, i.total))
          (omega (arith, i.total, le-span 1970 i.years)) in_year in
    let month : month_loop months 1 rest ≡ (1 + i.months, i.left) =
      month_loop_lem months i.months 1 i.left (omega (arith, i.listed, twelve (is_leap_year year)))
        (omega (arith, twelve (is_leap_year year))) i.inside in
    let short = (le-month_length (is_leap year) (1 + i.months)).1 in
    let day : u8 (i.left + 1) ≡ (date_after days).day =
      omega (arith, i.day_is, i.inside, length_of_month year i.months i.listed, short) in
    rw (years, month)
      (date_eq year (date_after days).year (1 + i.months) (date_after days).month (u8 (i.left + 1))
        (date_after days).day (u8 ((days + 4) % 7 + 1)) (date_after days).day_of_week
        (sym i.year_is) (sym i.month_is) day (omega (arith, i.weekday_is)))

-- What a date of the calendar comes to at most.
pub date_after-bounds :
    (days : ℕ)
    → ((date_after days).month ≤ 12)
      × ((date_after days).day ≤ 31)
      × ((date_after days).day_of_week ≤ 7)
date_after-bounds days =
    let i = date_after-IsAt days in
    let year = 1970 + i.years in
    (
      omega (arith, i.month_is, i.listed),
      omega (
        arith,
        i.day_is,
        i.inside,
        length_of_month year i.months i.listed,
        (le-month_length (is_leap year) (1 + i.months)).1,
      ),
      omega (arith, i.weekday_is),
    )
