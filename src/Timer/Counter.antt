-- ===== src/Timer/Counter.antt =====
-- The 64-bit counter of src/timer.c behind 32-bit registers.
use picoemu.Base.{ℕ, ◌+◌, ◌*◌, ◌/◌, ◌^◌, ◌<◌, ◌≡◌, refl, ◌∙◌, bit_and, arith}
use picoemu.Base.Bits.{bit_and_mask, bit_or_fields}
use picoemu.Timer.Alarms.{Timer, timer_read32, timer_write32}

-- Two 32-bit words written to TIMEHW and then TIMELW are what TIMELR and then TIMEHR return, and what
-- TIMERAWH and TIMERAWL return; the second read is that of the moment of the first one, even when the
-- counter was written in between.
pub timer_round_trip :
    {W : Type 0} (signal : ℕ → W → W) (hi lo hi' lo' : ℕ) (t : Timer W)
    → hi < 2 ^ 32
    → lo < 2 ^ 32
    → let set = timer_write32 signal 0x04 lo (timer_write32 signal 0x00 hi t) in
      let (low, latched) = timer_read32 0x0C set in
      (low ≡ lo)
      × ((timer_read32 0x08 latched).0 ≡ hi)
      × ((timer_read32 0x08
            (timer_write32 signal 0x04 lo' (timer_write32 signal 0x00 hi' latched))).0
          ≡ hi)
      × ((timer_read32 0x24 set).0 ≡ hi)
      × ((timer_read32 0x28 set).0 ≡ lo)
unfolding timer_write32 timer_read32
timer_round_trip signal hi lo hi' lo' t h l =
    let word = bit_or_fields 32 hi lo l in
    let low : bit_and (hi * 2 ^ 32 + lo) 0xFFFFFFFF ≡ lo =
      bit_and_mask 32 (hi * 2 ^ 32 + lo) ∙ omega arith in
    let high : bit_and ((hi * 2 ^ 32 + lo) / 2 ^ 32) 0xFFFFFFFF ≡ hi =
      bit_and_mask 32 ((hi * 2 ^ 32 + lo) / 2 ^ 32) ∙ omega arith in
    rw (word, low, high) (refl, refl, refl, refl, refl)
