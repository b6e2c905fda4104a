-- ===== src/Pwm/Tests.antt =====
-- The theorems on the pulse width modulators at concrete states.
use picoemu.Base.{ℕ, ◌+◌, ◌^◌, ◌<◌, ◌≡◌, refl, arith}
use picoemu.Pwm.Slices.{Pwm, pwm_read32, pwm_write32, write_globals, signal_wrap, pwm_init}
use picoemu.Pwm.Widths.{IsPwm, pwm_write32-widths}
use picoemu.Pwm.Latches.{pwm_read32-pwm_write32}

-- The world counts the signals.
abbrev signal : ℕ → ℕ → ℕ
signal irq n = n + 1

abbrev fresh : Pwm ℕ
fresh = record {
  slice = λ i. record { csr = 1; div = 0x10; ctr = 0; cc = 0; top = 0xFFFF };
  en = 0;
  intr = 5;
  inte = 0;
  intf = 0;
  inte1 = 0;
  intf1 = 0;
  nvic = 0;
}

fresh-IsPwm : IsPwm fresh
fresh-IsPwm = record {
  slices = λ i. record {
    csr = omega arith;
    div = omega arith;
    ctr = omega arith;
    cc = omega arith;
    top = omega arith;
  };
  en = omega arith;
  intr = omega arith;
  inte = omega arith;
  intf = omega arith;
  inte1 = omega arith;
  intf1 = omega arith;
}

pwm_write32-widths_example :
    IsPwm (pwm_init fresh)
    × IsPwm (pwm_write32 signal 1 0xF8 0xFFFFFFFF fresh)
    × (pwm_read32 1 0x100 (pwm_write32 signal 1 0xF8 0xFFFFFFFF fresh) < 2 ^ 32)
pwm_write32-widths_example =
    pwm_write32-widths signal 1 0xF8 0xFFFFFFFF 0x100 fresh (omega arith) fresh-IsPwm

-- The enabled interrupts 0 and 2 are pending, so the line is signalled once.
signalled : (pwm_write32 signal 1 0xF8 0xFFFFFFFF fresh).nvic ≡ 1
unfolding pwm_write32 write_globals signal_wrap
signalled = refl

-- TOP of slice 9, which is EN of the RP2040.
pwm_read32-pwm_write32_example :
    pwm_read32 1 0xC4 (pwm_write32 signal 1 0xC4 0x12345678 fresh) ≡ 0x5678
pwm_read32-pwm_write32_example =
    pwm_read32-pwm_write32 signal 1 0xC4 0xC4 0x12345678 fresh (omega arith) (omega arith)
