-- ===== src/Rtc/Setup.antt =====
-- How firmware sets the clock of src/rtc.c and reads it back.
use picoemu.Base.{
  ℕ, ◌+◌, ◌*◌, ◌%◌, ◌^◌, ◌≤◌, ◌≡◌, refl, ◌∙◌, bit_and, bit_or, false, ◌==◌, not32, get_or, leb,
  arith,
}
use picoemu.Base.Bits.{holds_below, holds_below-at, bit_and_mask, bit_or-sum}
use picoemu.Rtc.Clock.{
  Rtc, dim, days_in_month, rtc_load_setup, rtc_pack_rtc0, rtc_pack_rtc1, rtc_read32, rtc_write_ctrl,
  rtc_write32,
}
use picoemu.Rtc.Gregorian.{month_days_lem}
use picoemu.Rtc.Calendar.{IsDate}

pack_date :
    (r : Rtc) → rtc_pack_rtc1 r ≡ r.year % 2 ^ 12 * 2 ^ 12 + r.month % 2 ^ 4 * 2 ^ 8 + r.day % 2 ^ 5
unfolding rtc_pack_rtc1
pack_date r =
    let y = r.year % 2 ^ 12 in
    let m = r.month % 2 ^ 4 in
    let month : bit_or (y * 2 ^ 12) (m * 2 ^ 8) ≡ y * 2 ^ 12 + m * 2 ^ 8 =
      bit_or-sum 12 y _ _ refl (omega arith) in
    rw (bit_and_mask 12 r.year, bit_and_mask 4 r.month, bit_and_mask 5 r.day, month)
      (bit_or-sum 5 (y * 2 ^ 7 + m * 2 ^ 3) _ _ (omega arith) (omega arith))

pack_time :
    (r : Rtc)
    → rtc_pack_rtc0 r
      ≡ r.dotw % 2 ^ 3 * 2 ^ 24 + r.hour % 2 ^ 5 * 2 ^ 16 + r.min % 2 ^ 6 * 2 ^ 8 + r.sec % 2 ^ 6
unfolding rtc_pack_rtc0
pack_time r =
    let d = r.dotw % 2 ^ 3 in
    let h = r.hour % 2 ^ 5 in
    let m = r.min % 2 ^ 6 in
    let hour : bit_or (d * 2 ^ 24) (h * 2 ^ 16) ≡ d * 2 ^ 24 + h * 2 ^ 16 =
      bit_or-sum 24 d _ _ refl (omega arith) in
    let min : bit_or (d * 2 ^ 24 + h * 2 ^ 16) (m * 2 ^ 8) ≡ d * 2 ^ 24 + h * 2 ^ 16 + m * 2 ^ 8 =
      bit_or-sum 16 (d * 2 ^ 8 + h) _ _ (omega arith) (omega arith) in
    rw
      (
        bit_and_mask 3 r.dotw,
        bit_and_mask 5 r.hour,
        bit_and_mask 6 r.min,
        bit_and_mask 6 r.sec,
        hour,
        min,
      )
      (bit_or-sum 8 (d * 2 ^ 16 + h * 2 ^ 8 + m) _ _ (omega arith) (omega arith))

-- The date and the time of two clocks are the same.
pub record SameTime (r t : Rtc) : Type 0 where
  pub year : r.year ≡ t.year
  pub month : r.month ≡ t.month
  pub day : r.day ≡ t.day
  pub dotw : r.dotw ≡ t.dotw
  pub hour : r.hour ≡ t.hour
  pub min : r.min ≡ t.min
  pub sec : r.sec ≡ t.sec

month_length : (month year : ℕ) → days_in_month month year ≤ 31
unfolding days_in_month holds_below
month_length month year =
    let table = holds_below-at (λ m. leb (get_or dim m 0) 31) 13 month refl in ground (arith, table)

same_words :
    (r t : Rtc)
    → SameTime r t
    → (rtc_pack_rtc1 r ≡ rtc_pack_rtc1 t) × (rtc_pack_rtc0 r ≡ rtc_pack_rtc0 t)
same_words r t s = (
  rw (pack_date r, pack_date t, s.year, s.month, s.day),
  rw (pack_time r, pack_time t, s.dotw, s.hour, s.min, s.sec),
)

load-pack :
    (r t : Rtc)
    → IsDate t
    → r.setup_0 ≡ rtc_pack_rtc1 t
    → r.setup_1 ≡ rtc_pack_rtc0 t
    → SameTime (rtc_load_setup r) t
unfolding rtc_load_setup
load-pack r t d date time =
    let e = date ∙ pack_date t in
    let f = time ∙ pack_time t in
    let short = month_length t.month t.year in
    let length = month_days_lem t.month t.year d.month_low d.month_top in
    record {
      year = bit_and_mask 12 _ ∙ omega arith;
      month = bit_and_mask 4 _ ∙ omega arith;
      day = bit_and_mask 5 _ ∙ omega arith;
      dotw = bit_and_mask 3 _ ∙ omega arith;
      hour = bit_and_mask 5 _ ∙ omega arith;
      min = bit_and_mask 6 _ ∙ omega arith;
      sec = bit_and_mask 6 _ ∙ omega arith;
    }

-- Setting the clock: the packed words of a date in SETUP_0 and SETUP_1, then CTRL with the LOAD bit.
-- From then on the clock shows that date, with no microsecond over, its read registers RTC_1 and
-- RTC_0 return the two words, and CTRL holds what was written without the LOAD bit.
pub set_clock :
    (ctrl : ℕ) (r t : Rtc)
    → IsDate t
    → (bit_and ctrl 0x10 == 0) ≡ false
    → let after =
        rtc_write32 0x0C ctrl
          (rtc_write32 0x08 (rtc_pack_rtc0 t) (rtc_write32 0x04 (rtc_pack_rtc1 t) r)) in
      SameTime after t
      × (after.tick_acc ≡ 0)
      × (rtc_read32 0x18 after ≡ rtc_pack_rtc1 t)
      × (rtc_read32 0x1C after ≡ rtc_pack_rtc0 t)
      × (after.ctrl ≡ bit_and ctrl (not32 0x10))
unfolding rtc_write32 rtc_write_ctrl rtc_read32
set_clock ctrl r t d load =
    let written = record r { setup_0 = rtc_pack_rtc1 t; setup_1 = rtc_pack_rtc0 t } in
    let same = load-pack written t d refl refl in
    let loaded = record (rtc_load_setup written) { ctrl = bit_and ctrl (not32 0x10) } in
    let shown : SameTime loaded t = record {
      year = same.year;
      month = same.month;
      day = same.day;
      dotw = same.dotw;
      hour = same.hour;
      min = same.min;
      sec = same.sec;
    } in
    let (date, time) = same_words loaded t shown in
    rw load (shown, unfold rtc_load_setup in refl, date, time, refl)
