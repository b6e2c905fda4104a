-- ===== src/Timer/Tests.antt =====
-- The theorems on the timer at concrete states.
use picoemu.Base.{ℕ, ◌+◌, ◌^◌, ◌≡◌, ◌==◌, if◌then◌else◌, refl, arith}
use picoemu.Timer.Alarms.{Timer, timer_next_wakeup_us, wakeup_loop, timer_read32, timer_write32}
use picoemu.Timer.Wakeup.{any_due, due_loop, any_due-timer_next_wakeup_us}
use picoemu.Timer.Counter.{timer_round_trip}

abbrev fresh : Timer ℕ
fresh = record {
  time_us = 0;
  alarm = λ i. 0;
  armed = 0;
  intr = 0;
  inte = 0;
  intf = 0;
  paused = 0;
  timehw_latch = 0;
  timer_latched_high = 0;
  nvic = 0;
}

abbrev pend : ℕ → ℕ → ℕ
pend irq pending = pending + 2 ^ irq

timer_round_trip_example :
    let set = timer_write32 pend 0x04 0xFFFFFFFF (timer_write32 pend 0x00 3 fresh) in
    let (low, latched) = timer_read32 0x0C set in
    (low ≡ 0xFFFFFFFF)
    × ((timer_read32 0x08 latched).0 ≡ 3)
    × ((timer_read32 0x08 (timer_write32 pend 0x04 5 (timer_write32 pend 0x00 4 latched))).0 ≡ 3)
    × ((timer_read32 0x24 set).0 ≡ 3)
    × ((timer_read32 0x28 set).0 ≡ 0xFFFFFFFF)
timer_round_trip_example = timer_round_trip pend 3 0xFFFFFFFF 4 5 fresh (omega arith) (omega arith)

-- Alarm 2 is 500 microseconds ahead and alarm 0 a thousand.
abbrev waiting : Timer ℕ
waiting = record fresh { time_us = 100; alarm = λ i. if i == 2 then 600 else 1100; armed = 5 }

any_due-timer_next_wakeup_us_example : any_due waiting 599 ≡ (499 == timer_next_wakeup_us waiting)
unfolding timer_next_wakeup_us due_loop wakeup_loop
any_due-timer_next_wakeup_us_example =
    any_due-timer_next_wakeup_us waiting 2 499 (omega arith) (λ i. ground arith) (omega arith) refl
      refl (omega arith)

next_alarm : timer_next_wakeup_us waiting ≡ 500
unfolding timer_next_wakeup_us wakeup_loop
next_alarm = refl
