-- ===== src/Rtc/Gregorian.antt =====
-- The Gregorian calendar by counting days, and that the tables of src/rtc.c agree with it.
use native.Mathlib.Numerals.{add-one}
use picoemu.Base.{
  ℕ, zero, suc, ◌+◌, ◌-◌, ◌*◌, ◌/◌, ◌≤◌, ◌<◌, ◌≡◌, refl, Bool, true, false, ◌&&◌, ◌||◌, List, [],
  ◌∷◌, ltb, get_or, ◌==◌, ==_iff, if◌then◌else◌, arith,
}
use picoemu.Base.Bits.{holds_below, holds_below-at}
use picoemu.Rtc.Clock.{dim, is_leap, days_in_month}

-- How many of the years before `year` have a leap day, the year 0 being one of them: every fourth has,
-- but for the hundredth ones, of which every fourth has.
unfoldable pub leap_days : ℕ → ℕ
leap_days year = (year + 3) / 4 - (year + 99) / 100 + (year + 399) / 400

-- The days before the 1st of January of a year.
unfoldable pub days_before_year : ℕ → ℕ
unfolding leap_days
days_before_year year = 365 * year + leap_days year

-- The days before the 1st of a month in a common year; the 13th month is the next January.
abbrev pub month_starts : List ℕ
month_starts = 0 ∷ 0 ∷ 31 ∷ 59 ∷ 90 ∷ 120 ∷ 151 ∷ 181 ∷ 212 ∷ 243 ∷ 273 ∷ 304 ∷ 334 ∷ 365 ∷ []

-- From March on a leap day counts too.
unfoldable pub days_before_month : ℕ → ℕ → ℕ
unfolding leap_days
days_before_month month year =
    get_or month_starts month 0 + (if ltb 2 month then leap_days (year + 1) - leap_days year else 0)

-- The length of a month: from its 1st to the next one's.
unfoldable pub month_days : ℕ → ℕ → ℕ
unfolding days_before_month
month_days month year = days_before_month (month + 1) year - days_before_month month year

-- The code's rule gives a leap day to the years that the count has one for.
pub is_leap_lem :
    (year : ℕ) → leap_days (year + 1) ≡ leap_days year + (if is_leap year then 1 else 0)
unfolding leap_days
is_leap_lem year = ground arith

-- The days before a month where February has `leap` days more than 28, and what `dim` adds to them.
abbrev start_of : ℕ → ℕ → ℕ
start_of leap month = get_or month_starts month 0 + (if ltb 2 month then leap else 0)

abbrev rows : Bool → ℕ → Bool
rows leap k =
    let extra : ℕ = if leap then 1 else 0 in
    start_of extra (suc (suc k))
    == start_of extra (suc k) + (if (suc k == 2) && leap then 29 else get_or dim (suc k) 0)

rows_hold : (leap : Bool) → holds_below (rows leap) 12 ≡ true
unfolding holds_below
rows_hold true = refl
rows_hold false = refl

extra_day : (year : ℕ) → leap_days (year + 1) - leap_days year ≡ (if is_leap year then 1 else 0)
extra_day year = omega (arith, is_leap_lem year)

month_row :
    (k : ℕ) (leap : Bool)
    → k < 12
    → let extra : ℕ = if leap then 1 else 0 in
      start_of extra (suc (suc k))
      ≡ start_of extra (suc k) + (if (suc k == 2) && leap then 29 else get_or dim (suc k) 0)
month_row k leap h = (==_iff _ _).0 (holds_below-at (rows leap) 12 k (rows_hold leap) h)

in_year : (k : ℕ) → k < 12 → (ltb (suc k) 1 || ltb 12 (suc k)) ≡ false
in_year k h = ground arith

next_start :
    (k year : ℕ)
    → k < 12
    → days_before_month (suc (suc k)) year
      ≡ days_before_month (suc k) year + days_in_month (suc k) year
unfolding days_before_month days_in_month
next_start k year h = rw (extra_day year, in_year k h) (month_row k (is_leap year) h)

-- The 1st of the next month is as many days later as `days_in_month` says.
pub next_month :
    (month year : ℕ)
    → 1 ≤ month
    → month ≤ 12
    → days_before_month (month + 1) year ≡ days_before_month month year + days_in_month month year
next_month zero year low high = absurd (omega arith)
next_month (suc k) year low high = rw add-one (next_start k year (omega arith))

pub month_days_lem :
    (month year : ℕ) → 1 ≤ month → month ≤ 12 → month_days month year ≡ days_in_month month year
unfolding month_days
month_days_lem month year low high = omega (arith, next_month month year low high)

pub next_year :
    (year : ℕ) → days_before_year (year + 1) ≡ days_before_year year + days_before_month 13 year
unfolding days_before_year days_before_month
next_year year = omega (arith, is_leap_lem year)

pub january_start : (year : ℕ) → days_before_month 1 year ≡ 0
unfolding days_before_month
january_start year = refl

pub first_year : days_before_year 0 ≡ 0
unfolding days_before_year leap_days
first_year = refl
