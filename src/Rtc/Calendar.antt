-- ===== src/Rtc/Calendar.antt =====
-- The calendar that the clock of src/rtc.c keeps: which dates are dates, how many seconds one is
-- after the start of the year 0, and what a second does to it.
use picoemu.Base.{
  ℕ, suc, ◌+◌, ◌-◌, ◌*◌, ◌≤◌, ◌<◌, ◌≡◌, refl, ◌⊎◌, inl, inr, false, leb, ltb, get_or, Bool-cases,
  arith,
}
use picoemu.Base.Bits.{holds_below, holds_below-at}
use picoemu.Rtc.Gregorian.{
  days_before_year, days_before_month, month_days, next_month, month_days_lem, next_year,
  january_start, first_year,
}
use picoemu.Rtc.Clock.{
  Rtc, dim, days_in_month, advance_year, advance_month, advance_day, advance_hour, advance_minute,
  rtc_advance_second,
}

-- A date and a time of day in the ranges that include/rtc.h gives.
pub record IsDate (r : Rtc) : Type 0 where
  pub year_top : r.year ≤ 4095
  pub month_low : 1 ≤ r.month
  pub month_top : r.month ≤ 12
  pub day_low : 1 ≤ r.day
  pub day_top : r.day ≤ month_days r.month r.year
  pub dotw_top : r.dotw < 7
  pub hour_top : r.hour < 24
  pub min_top : r.min < 60
  pub sec_top : r.sec < 60

-- Days since the 1st of January of the year 0.
unfoldable pub day_number : Rtc → ℕ
day_number r = days_before_year r.year + days_before_month r.month r.year + (r.day - 1)

unfoldable pub seconds : Rtc → ℕ
seconds r = day_number r * 86400 + r.hour * 3600 + r.min * 60 + r.sec

-- No month that the code knows is shorter than 28 days.
some_days : (month year : ℕ) → 28 ≤ days_in_month month year
unfolding days_in_month holds_below
some_days month year =
    let table = holds_below-at (λ k. leb 28 (get_or dim (suc k) 0)) 12 (month - 1) refl in
    let row : ltb month 1 ≡ false → suc (month - 1) ≡ month = λ h. ground arith in
    ground (arith, table, row)

december_days : (year : ℕ) → days_in_month 12 year ≡ 31
unfolding days_in_month
december_days year = refl

-- What the next day is: a date at the same minute and second of its first hour, a day later
-- or, after the last day of 4095, the first day of the year 0.
record NextDay (r s : Rtc) : Type 0 where
  date : IsDate s
  hour : s.hour ≡ 0
  min : s.min ≡ r.min
  sec : s.sec ≡ r.sec
  number : (day_number s ≡ day_number r + 1) ⊎ ((r.year ≡ 4095) × (day_number s ≡ 0))

advance_day-NextDay : (r : Rtc) → IsDate r → NextDay r (advance_day r)
unfolding advance_day advance_month advance_year day_number
advance_day-NextDay r d =
    let length = month_days_lem r.month r.year d.month_low d.month_top in
    let top = d.day_top in
    elim (Bool-cases (ltb (days_in_month r.month r.year) (r.day + 1))) [
      | inr e ↦ rw e (record {
        date = record {
          year_top = d.year_top;
          month_low = d.month_low;
          month_top = d.month_top;
          day_low = omega arith;
          day_top = ground arith;
          dotw_top = omega arith;
          hour_top = omega arith;
          min_top = d.min_top;
          sec_top = d.sec_top;
        };
        hour = refl;
        min = refl;
        sec = refl;
        number = inl (omega arith);
      })
      | inl e ↦ elim (Bool-cases (ltb 12 (r.month + 1))) [
        | inr e' ↦
            rw (e, e')
              (record {
                date = record {
                  year_top = d.year_top;
                  month_low = omega arith;
                  month_top = ground arith;
                  day_low = omega arith;
                  day_top = omega (
                    arith,
                    some_days (r.month + 1) r.year,
                    month_days_lem (r.month + 1) r.year (omega arith) (ground arith),
                  );
                  dotw_top = omega arith;
                  hour_top = omega arith;
                  min_top = d.min_top;
                  sec_top = d.sec_top;
                };
                hour = refl;
                min = refl;
                sec = refl;
                number = inl (ground (arith, next_month r.month r.year d.month_low d.month_top));
              })
        | inl e' ↦
            rw (e, e')
              (record {
                date = record {
                  year_top = ground arith;
                  month_low = omega arith;
                  month_top = omega arith;
                  day_low = omega arith;
                  day_top =
                      omega (arith, some_days 1 _, month_days_lem 1 _ (omega arith) (omega arith));
                  dotw_top = omega arith;
                  hour_top = omega arith;
                  min_top = d.min_top;
                  sec_top = d.sec_top;
                };
                hour = refl;
                min = refl;
                sec = refl;
                number =
                    let december : r.month ≡ 12 = ground arith in
                    let days : days_in_month r.month r.year ≡ 31 =
                      rw december (december_days r.year) in
                    let before : days_before_month 13 r.year
                        ≡ days_before_month r.month r.year + days_in_month r.month r.year =
                      rw december (next_month 12 r.year (omega arith) (omega arith)) in
                    let year = next_year r.year in
                    let start = january_start (r.year + 1) in
                    let first = january_start 0 in
                    let zero_year = first_year in
                    elim (Bool-cases (ltb 4095 (r.year + 1))) [
                      | inl over ↦ rw over (inr (ground arith, omega arith))
                      | inr under ↦ rw under (inl (ground arith))
                    ];
              })
      ]
    ]

-- The next day does not depend on the hour.
any_hour : (r : Rtc) (h : ℕ) → IsDate r → NextDay r (advance_day (record r { hour = h }))
unfolding advance_day
any_hour r h d = advance_day-NextDay r d

at_time :
    (r : Rtc) (h m s : ℕ)
    → IsDate r
    → h < 24
    → m < 60
    → s < 60
    → IsDate (record r { hour = h; min = m; sec = s })
at_time r h m s d hour min sec = record {
  year_top = d.year_top;
  month_low = d.month_low;
  month_top = d.month_top;
  day_low = d.day_low;
  day_top = d.day_top;
  dotw_top = d.dotw_top;
  hour_top = hour;
  min_top = min;
  sec_top = sec;
}

-- The next day begins with the second after the last one of this day.
midnight :
    (r s : Rtc)
    → NextDay (record r { sec = 0; min = 0 }) s
    → r.hour ≡ 23
    → r.min ≡ 59
    → r.sec ≡ 59
    → (seconds s ≡ seconds r + 1) ⊎ ((r.year ≡ 4095) × (seconds s ≡ 0))
unfolding seconds day_number
midnight r s next hour min sec =
    let zero_hour = next.hour in
    let zero_min = next.min in
    let zero_sec = next.sec in
    elim next.number [ inl n ↦ inl (omega arith) | inr n ↦ inr (n.0, omega (arith, n.1)) ]

-- At a valid date the next second is a valid date, one second later; only from the year 4095 it
-- may be the first second of the year 0.
pub rtc_advance_second-NextSecond :
    (r : Rtc)
    → IsDate r
    → IsDate (rtc_advance_second r)
      × ((seconds (rtc_advance_second r) ≡ seconds r + 1)
          ⊎ ((r.year ≡ 4095) × (seconds (rtc_advance_second r) ≡ 0)))
unfolding rtc_advance_second advance_minute advance_hour seconds day_number
rtc_advance_second-NextSecond r d = elim (Bool-cases (leb 60 (r.sec + 1))) [
  | inr e ↦
      rw e (
        at_time r r.hour r.min (r.sec + 1) d d.hour_top d.min_top (ground arith),
        inl (omega arith),
      )
  | inl e ↦ elim (Bool-cases (leb 60 (r.min + 1))) [
    | inr e' ↦
        rw (e, e')
          (
            at_time r r.hour (r.min + 1) 0 d d.hour_top (ground arith) (omega arith),
            inl (ground arith),
          )
    | inl e' ↦ elim (Bool-cases (leb 24 (r.hour + 1))) [
      | inr e'' ↦
          rw (e, e', e'')
            (
              at_time r (r.hour + 1) 0 0 d (ground arith) (omega arith) (omega arith),
              inl (ground arith),
            )
      | inl e'' ↦
          let start = at_time r r.hour 0 0 d d.hour_top (omega arith) (omega arith) in
          let next = any_hour (record r { sec = 0; min = 0 }) (r.hour + 1) start in
          rw (e, e', e'')
            (next.date, midnight r _ next (ground arith) (ground arith) (ground arith))
    ]
  ]
]
