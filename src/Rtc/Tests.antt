-- ===== src/Rtc/Tests.antt =====
-- The theorems on the clock at concrete dates.
use picoemu.Base.{◌+◌, ◌<◌, ◌≡◌, refl, ◌⊎◌, arith}
use picoemu.Rtc.Clock.{
  Rtc, rtc_init, days_in_month, advance_month, advance_day, advance_hour, advance_minute,
  rtc_advance_second, rtc_pack_rtc0, rtc_pack_rtc1, rtc_read32, rtc_tick, rtc_write32,
}
use picoemu.Rtc.Gregorian.{month_days, days_before_year}
use picoemu.Rtc.Calendar.{IsDate, seconds, rtc_advance_second-NextSecond}
use picoemu.Rtc.Ticks.{iterate, rtc_tick-iterate}
use picoemu.Rtc.Setup.{SameTime, set_clock}

-- The last second of February 2024, enabled, with 600 milliseconds begun.
abbrev leap_day : Rtc
leap_day = record rtc_init {
  ctrl = 1;
  year = 2024;
  month = 2;
  day = 29;
  dotw = 4;
  hour = 23;
  min = 59;
  sec = 59;
  tick_acc = 600000;
}

february : days_in_month 2 2024 ≡ 29
unfolding days_in_month
february = refl

-- 1900 had 365 days, 2000 had 366.
centuries :
    (days_before_year 1901 ≡ days_before_year 1900 + 365)
    × (days_before_year 2001 ≡ days_before_year 2000 + 366)
unfolding days_before_year
centuries = (refl, refl)

leap_day-IsDate : IsDate leap_day
unfolding month_days
leap_day-IsDate = record {
  year_top = omega arith;
  month_low = omega arith;
  month_top = omega arith;
  day_low = omega arith;
  day_top = omega arith;
  dotw_top = omega arith;
  hour_top = omega arith;
  min_top = omega arith;
  sec_top = omega arith;
}

rtc_advance_second-NextSecond_example :
    IsDate (rtc_advance_second leap_day)
    × ((seconds (rtc_advance_second leap_day) ≡ seconds leap_day + 1)
        ⊎ ((leap_day.year ≡ 4095) × (seconds (rtc_advance_second leap_day) ≡ 0)))
rtc_advance_second-NextSecond_example = rtc_advance_second-NextSecond leap_day leap_day-IsDate

-- 2.5 seconds later it is three seconds and 100 milliseconds later.
rtc_tick-iterate_example :
    (rtc_tick 2500000 leap_day ≡ record (iterate 3 leap_day) { tick_acc = 100000 })
    × (100000 < 1000000)
    × IsDate (rtc_tick 2500000 leap_day)
rtc_tick-iterate_example =
    rtc_tick-iterate 2500000 leap_day leap_day-IsDate (omega arith) (omega arith)

-- A new clock set to that date and enabled.
set_clock_example :
    let after = rtc_write32 0x0C 0x11 (
      rtc_write32 0x08
        (rtc_pack_rtc0 leap_day)
        (rtc_write32 0x04 (rtc_pack_rtc1 leap_day) rtc_init)) in
    SameTime after leap_day
    × (after.tick_acc ≡ 0)
    × (rtc_read32 0x18 after ≡ rtc_pack_rtc1 leap_day)
    × (rtc_read32 0x1C after ≡ rtc_pack_rtc0 leap_day)
    × (after.ctrl ≡ 1)
set_clock_example = set_clock 0x11 rtc_init leap_day leap_day-IsDate refl

first_of_march : (rtc_advance_second leap_day).month ≡ 3
unfolding rtc_advance_second advance_minute advance_hour advance_day advance_month days_in_month
first_of_march = refl
