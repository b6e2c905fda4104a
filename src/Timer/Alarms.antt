-- ===== src/Timer/Alarms.antt =====
-- src/timer.c with include/timer.h: the state `timer_state` with `timer_latched_high`, the alarms, and
-- the registers. Offsets are relative to TIMER_BASE.
use picoemu.Base.{
  ℕ, zero, suc, ◌+◌, ◌^◌, bit_and, bit_or, Bool, false, true, not, ltb, ◌==◌, if◌then◌else◌, u64,
  sub32, not32, ◌<<◌, ◌>>◌,
}
use picoemu.Thumb.State.{update}

-- `nvic` is the interrupt controller that `nvic_signal_rp2350_irq` changes.
pub record Timer (W : Type 0) : Type 0 where
  pub time_us : ℕ
  pub alarm : ℕ → ℕ
  pub armed : ℕ
  pub intr : ℕ
  pub inte : ℕ
  pub intf : ℕ
  pub paused : ℕ
  pub timehw_latch : ℕ
  pub timer_latched_high : ℕ
  pub nvic : W

-- `timer_state` after `timer_reset`; the latch of the high word is not reset.
abbrev pub timer_reset : {W : Type 0} → Timer W → Timer W
timer_reset t = record t {
  time_us = 0;
  alarm = λ i. 0;
  armed = 0;
  intr = 0;
  inte = 0;
  intf = 0;
  paused = 0;
  timehw_latch = 0;
}

-- `armed & (1 << i)`
abbrev pub is_armed : ℕ → ℕ → Bool
is_armed armed i = not (bit_and armed (1 << i) == 0)

-- `(int32_t)(now - target) >= 0`
abbrev pub reached : ℕ → ℕ → Bool
reached now target = ltb (sub32 now target) (2 ^ 31)

abbrev low_word : {W : Type 0} → Timer W → ℕ
low_word t = bit_and t.time_us 0xFFFFFFFF

abbrev high_word : {W : Type 0} → Timer W → ℕ
high_word t = bit_and (t.time_us >> 32) 0xFFFFFFFF

-- The `for` of `timer_next_wakeup_us` over the alarms from `i` on, `left` of them, and what follows it.
unfoldable pub wakeup_loop : ℕ → ℕ → (ℕ → ℕ) → ℕ → ℕ → ℕ → Bool → ℕ
wakeup_loop zero i alarm armed now best found = if found then best else 1000
wakeup_loop (suc left) i alarm armed now best found =
    let dt = sub32 (alarm i) now in
    let skipped = wakeup_loop left (suc i) alarm armed now best found in
    let kept = wakeup_loop left (suc i) alarm armed now (if ltb dt best then dt else best) true in
    if is_armed armed i then (if reached now (alarm i) then 1 else kept) else skipped

unfoldable pub timer_next_wakeup_us : {W : Type 0} → Timer W → ℕ
timer_next_wakeup_us t = wakeup_loop 4 0 t.alarm t.armed (low_word t) 0xFFFFFFFF false

module _ {W : Type 0} (nvic_signal_rp2350_irq : ℕ → W → W) where
  -- IRQ_TIMER_IRQ_0 is 0.
  unfoldable pub timer_fire_alarm : ℕ → Timer W → Timer W
  timer_fire_alarm i t = record t {
    intr = bit_or t.intr (1 << i);
    armed = bit_and t.armed (not32 (1 << i));
    nvic = nvic_signal_rp2350_irq i t.nvic;
  }

  -- One turn of the `for` of `timer_tick`, and the turns from `i` on.
  unfoldable pub check_alarm : ℕ → ℕ → Timer W → Timer W
  check_alarm cur_low i t =
      if is_armed t.armed i
      then (if reached cur_low (t.alarm i) then timer_fire_alarm i t else t)
      else t

  unfoldable pub check_alarms : ℕ → ℕ → ℕ → Timer W → Timer W
  check_alarms zero i cur_low t = t
  check_alarms (suc left) i cur_low t = check_alarms left (suc i) cur_low (check_alarm cur_low i t)

  unfoldable pub timer_tick : ℕ → Timer W → Timer W
  timer_tick cycles t =
      let ticked = record t { time_us = u64 (t.time_us + cycles) } in
      if t.paused == 0 then check_alarms 4 0 (low_word ticked) ticked else t

  unfoldable pub signal_loop : ℕ → ℕ → ℕ → W → W
  signal_loop zero i ints nvic = nvic
  signal_loop (suc left) i ints nvic =
      signal_loop left (suc i) ints
        (if is_armed ints i then nvic_signal_rp2350_irq i nvic else nvic)

  -- After INTE or INTF changed, the alarms that are pending and enabled are signalled.
  abbrev signal_enabled : Timer W → Timer W
  signal_enabled t = record t {
    nvic = signal_loop 4 0 (bit_and (bit_or t.intr t.intf) t.inte) t.nvic;
  }

  abbrev arm : ℕ → ℕ → Timer W → Timer W
  arm i val t = record t { alarm = update t.alarm i val; armed = bit_or t.armed (1 << i) }

  unfoldable pub timer_write32 : ℕ → ℕ → Timer W → Timer W
  timer_write32 offset val t =
      if offset == 0x00
      then record t { timehw_latch = val }
      else if offset == 0x04
      then record t { time_us = bit_or (t.timehw_latch << 32) val }
      else if offset == 0x10
      then arm 0 val t
      else if offset == 0x14
      then arm 1 val t
      else if offset == 0x18
      then arm 2 val t
      else if offset == 0x1C
      then arm 3 val t
      else if offset == 0x20
      then record t { armed = bit_and t.armed (not32 val) }
      else if offset == 0x34
      then record t { intr = bit_and t.intr (not32 val) }
      else if offset == 0x38
      then signal_enabled (record t { inte = bit_and val 0xF })
      else if offset == 0x3C
      then signal_enabled (record t { intf = bit_and val 0xF })
      else if offset == 0x30
      then record t { paused = bit_and val 1 }
      else t

-- A read of TIMELR latches the high word for TIMEHR.
unfoldable pub timer_read32 : {W : Type 0} → ℕ → Timer W → ℕ × Timer W
timer_read32 offset t =
    if offset == 0x0C
    then (low_word t, record t { timer_latched_high = high_word t })
    else if offset == 0x08
    then (t.timer_latched_high, t)
    else if offset == 0x24
    then (high_word t, t)
    else if offset == 0x28
    then (low_word t, t)
    else if offset == 0x10
    then (t.alarm 0, t)
    else if offset == 0x14
    then (t.alarm 1, t)
    else if offset == 0x18
    then (t.alarm 2, t)
    else if offset == 0x1C
    then (t.alarm 3, t)
    else if offset == 0x20
    then (t.armed, t)
    else if offset == 0x34
    then (t.intr, t)
    else if offset == 0x38
    then (t.inte, t)
    else if offset == 0x3C
    then (t.intf, t)
    else if offset == 0x40
    then (bit_and (bit_or t.intr t.intf) t.inte, t)
    else if offset == 0x30
    then (t.paused, t)
    else (0, t)
