-- ===== src/Rtc/Ticks.antt =====
-- How `rtc_tick` of src/rtc.c turns microseconds into seconds.
use picoemu.Base.{
  ℕ, zero, suc, ◌+◌, ◌-◌, ◌/◌, ◌%◌, ◌^◌, ◌≤◌, ◌<◌, ◌≡◌, refl, bit_and, leb, ◌==◌, Bool-cases, inl,
  inr, if◌then◌else◌, arith,
}
use picoemu.Rtc.Clock.{
  Rtc, advance_year, advance_month, advance_day, advance_hour, advance_minute, rtc_advance_second,
  tick_loop, rtc_tick,
}
use picoemu.Rtc.Calendar.{IsDate, rtc_advance_second-NextSecond}

-- So many seconds, one after the other.
unfoldable pub iterate : ℕ → Rtc → Rtc
iterate zero r = r
iterate (suc n) r = iterate n (rtc_advance_second r)

iterate-IsDate : (n : ℕ) (r : Rtc) → IsDate r → IsDate (iterate n r)
unfolding iterate
iterate-IsDate zero r d = d
iterate-IsDate (suc n) r d =
    iterate-IsDate n (rtc_advance_second r) (rtc_advance_second-NextSecond r d).0

-- A second does not touch the microseconds that are over.
abbrev with_acc : ℕ → Rtc → Rtc
with_acc a r = record r { tick_acc = a }

second_at_acc :
    (a : ℕ) (r : Rtc) → rtc_advance_second (with_acc a r) ≡ with_acc a (rtc_advance_second r)
unfolding rtc_advance_second advance_minute advance_hour advance_day advance_month advance_year
second_at_acc a r = ground arith

tick_loop-iterate :
    (fuel a : ℕ) (r : Rtc)
    → a / 1000000 < fuel
    → tick_loop fuel (with_acc a r) ≡ with_acc (a % 1000000) (iterate (a / 1000000) r)
unfolding tick_loop iterate
tick_loop-iterate zero a r h = absurd (omega arith)
tick_loop-iterate (suc fuel) a r h = elim (Bool-cases (leb 1000000 a)) [
  | inl e ↦
      let more : 1000000 ≤ a = ground arith in
      let turns : a / 1000000 ≡ suc ((a - 1000000) / 1000000) = omega arith in
      let rest : (a - 1000000) % 1000000 ≡ a % 1000000 = omega arith in
      rw (
        e,
        second_at_acc (a - 1000000) r,
        tick_loop-iterate fuel (a - 1000000) (rtc_advance_second r) (omega arith),
        turns,
        rest,
      )
  | inr e ↦
      let turns : a / 1000000 ≡ 0 = ground arith in
      let rest : a % 1000000 ≡ a = ground arith in rw (e, turns, rest)
]

-- A tick of an enabled clock that shows a date, with less than a second begun: it runs for as many
-- whole seconds as the microseconds fill, one second after the other, keeps the microseconds that
-- are left, less than a second, and still shows a date. A clock that is not enabled stays as it is.
pub rtc_tick-iterate :
    (elapsed : ℕ) (r : Rtc)
    → IsDate r
    → r.tick_acc < 1000000
    → elapsed < 2 ^ 32
    → let total = r.tick_acc + elapsed in
      let after = record (iterate (total / 1000000) r) { tick_acc = total % 1000000 } in
      (rtc_tick elapsed r ≡ (if bit_and r.ctrl 1 == 0 then r else after))
      × (total % 1000000 < 1000000)
      × IsDate (rtc_tick elapsed r)
unfolding rtc_tick
rtc_tick-iterate elapsed r d small word =
    let total = r.tick_acc + elapsed in
    let e : total % 2 ^ 64 ≡ total = omega arith in
    let loop = tick_loop-iterate (total / 1000000 + 1) total r (omega arith) in
    let date = iterate-IsDate (total / 1000000) r d in
    elim (Bool-cases (bit_and r.ctrl 1 == 0)) [
      | inl off ↦ rw off (refl, omega arith, d)
      | inr on ↦ rw (on, e, loop) (refl, omega arith, at_acc _ _ date)
    ]
  where
    at_acc : (a : ℕ) (q : Rtc) → IsDate q → IsDate (with_acc a q)
    at_acc a q v = record {
      year_top = v.year_top;
      month_low = v.month_low;
      month_top = v.month_top;
      day_low = v.day_low;
      day_top = v.day_top;
      dotw_top = v.dotw_top;
      hour_top = v.hour_top;
      min_top = v.min_top;
      sec_top = v.sec_top;
    }
