-- ===== src/Rtc/Loops.antt =====
-- The two loops of `days_to_date`: over the years, and over the months of a year.
use bedrock.Base.{
  ℕ, zero, suc, ◌+◌, ◌-◌, ◌^◌, ◌≤◌, ◌<◌, ◌≡◌, refl, ap, ◌∙◌, List, [], ◌∷◌, length, take, get_or,
  u8, u32, lt→ltb, ltb-false, Bool-cases, if-cases, inl, inr, arith,
}
use bedrock.Rtc.{is_leap_year, days_in_year, year_loop, days_in_months, month_loop}

-- The days of `n` years from `year` on, and of a list of months.
unfoldable pub span : ℕ → ℕ → ℕ
span year zero = 0
span year (suc n) = days_in_year year + span (year + 1) n

unfoldable pub sum : List ℕ → ℕ
sum [] = 0
sum (x ∷ xs) = x + sum xs

pub months_sum : (year : ℕ) → sum (days_in_months (is_leap_year year)) ≡ days_in_year year
unfolding sum days_in_months days_in_year
months_sum year = elim (Bool-cases (is_leap_year year)) [ inl t ↦ rw t refl | inr t ↦ rw t refl ]

pub span-snoc : (year c : ℕ) → span year (suc c) ≡ span year c + days_in_year (year + c)
unfolding span
span-snoc year zero = let same : year + 0 ≡ year = omega arith in rw same (omega arith)
span-snoc year (suc c) =
    let same : year + 1 + c ≡ year + suc c = omega arith in
    omega (arith, span-snoc (year + 1) c, ap days_in_year same)

le-days_in_year : (year : ℕ) → 1 ≤ days_in_year year
unfolding days_in_year
le-days_in_year year =
    if-cases (λ (d : ℕ). 1 ≤ d) (is_leap_year year) {x = 366} {y = 365} (λ y. omega arith)
      (λ n. omega arith)

pub le-span : (year c : ℕ) → c ≤ span year c
unfolding span
le-span year zero = omega arith
le-span year (suc c) = omega (arith, le-span (year + 1) c, le-days_in_year year)

pub take-sum :
    (months : List ℕ) (k : ℕ)
    → k < length months
    → (sum (take (suc k) months) ≡ sum (take k months) + get_or months k 0)
      × (sum (take (suc k) months) ≤ sum months)
unfolding sum
take-sum [] k h = absurd (omega arith)
take-sum (m ∷ rest) zero h = (omega arith, omega arith)
take-sum (m ∷ rest) (suc k) h =
    let (step, below) = take-sum rest k (omega arith) in (omega (arith, step), omega (arith, below))

-- The loop over the years stops in the year that the days lie in.
pub year_loop_lem :
    (c fuel year r : ℕ)
    → span year c + r < fuel
    → year + c < 2 ^ 32
    → r < days_in_year (year + c)
    → year_loop fuel year (span year c + r) ≡ (year + c, r)
unfolding year_loop span
year_loop_lem c zero year r f k l = absurd (omega arith)
year_loop_lem zero (suc fuel) year r f k l =
    let none_before : 0 + r ≡ r = omega arith in
    let same : year + 0 ≡ year = omega arith in
    let inside : r < days_in_year year = rw same at l in
    rw (none_before, lt→ltb r (days_in_year year) inside, same) refl
year_loop_lem (suc c) (suc fuel) year r f k l =
    let rest = span (year + 1) c in
    let on : year + 1 + c ≡ year + suc c = omega arith in
    let past = ltb-false (days_in_year year + rest + r) (days_in_year year) (omega arith) in
    let left : days_in_year year + rest + r - days_in_year year ≡ rest + r = omega arith in
    let next : u32 (year + 1) ≡ year + 1 = omega (arith, k) in
    let low : 1 ≤ days_in_year year = le-days_in_year year in
    rw (past, left, next)
      (year_loop_lem c fuel (year + 1) r (omega (arith, f, low)) (omega (arith, k)) (rw on l)
        ∙ ap (λ (y : ℕ). (y, r)) on)

pub month_loop_lem :
    (months : List ℕ) (k m left : ℕ)
    → k < length months
    → m + length months < 256
    → left < get_or months k 0
    → month_loop months m (sum (take k months) + left) ≡ (m + k, left)
unfolding month_loop sum
month_loop_lem [] k m left h b l = absurd (omega arith)
month_loop_lem (x ∷ rest) zero m left h b l =
    let same : m + 0 ≡ m = omega arith in
    let none_before : 0 + left ≡ left = omega arith in rw (none_before, lt→ltb left x l, same) refl
month_loop_lem (x ∷ rest) (suc k) m left h b l =
    let before = sum (take k rest) in
    let on : m + 1 + k ≡ m + suc k = omega arith in
    let past = ltb-false (x + before + left) x (omega arith) in
    let others : x + before + left - x ≡ before + left = omega arith in
    let next : u8 (m + 1) ≡ m + 1 = omega (arith, b) in
    rw (past, others, next)
      (month_loop_lem rest k (m + 1) left (omega (arith, h)) (omega (arith, b)) l
        ∙ ap (λ (i : ℕ). (i, left)) on)
