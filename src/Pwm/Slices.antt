-- ===== src/Pwm/Slices.antt =====
-- src/pwm.c with include/pwm.h: the registers of the slices and the global ones, in the layouts of the
-- RP2040 and of the RP2350.
use picoemu.Base.{
  ℕ, ◌+◌, ◌*◌, ◌/◌, ◌%◌, bit_and, bit_or, Bool, not, ◌&&◌, ◌||◌, leb, ltb, ◌==◌, if◌then◌else◌,
  not32,
}
use picoemu.Nvic.State.{put_core}

pub record PwmSlice : Type 0 where
  pub csr : ℕ
  pub div : ℕ
  pub ctr : ℕ
  pub cc : ℕ
  pub top : ℕ

-- `nvic` is the interrupt controller that `nvic_signal_rp2350_irq` changes.
pub record Pwm (W : Type 0) : Type 0 where
  pub slice : ℕ → PwmSlice
  pub en : ℕ
  pub intr : ℕ
  pub inte : ℕ
  pub intf : ℕ
  pub inte1 : ℕ
  pub intf1 : ℕ
  pub nvic : W

abbrev pub pwm_nslices : ℕ → ℕ
pwm_nslices mode = if mode == 0 then 8 else 12

unfoldable pub pwm_init : {W : Type 0} → Pwm W → Pwm W
pwm_init s = record s {
  slice = λ i. record {
    csr = 0;
    div = if ltb i 12 then 0x10 else 0;
    ctr = 0;
    cc = 0;
    top = if ltb i 12 then 0xFFFF else 0;
  };
  en = 0;
  intr = 0;
  inte = 0;
  intf = 0;
  inte1 = 0;
  intf1 = 0;
}

unfoldable pub pwm_match : ℕ → ℕ → Bool
pwm_match mode addr =
    let base = bit_and addr (not32 0x3000) in
    (leb 0x40050000 base && ltb base (0x40050000 + 0x1000))
    || (not (mode == 0) && (leb 0x400A8000 base && ltb base (0x400A8000 + 0x1000)))

unfoldable pub read_slice : ℕ → PwmSlice → ℕ
read_slice reg s =
    if reg == 0x00
    then s.csr
    else if reg == 0x04
    then s.div
    else if reg == 0x08
    then s.ctr
    else if reg == 0x0C
    then s.cc
    else if reg == 0x10
    then s.top
    else 0

unfoldable pub write_slice : ℕ → ℕ → PwmSlice → PwmSlice
write_slice reg val s =
    if reg == 0x00
    then record s { csr = bit_and val 0xFF }
    else if reg == 0x04
    then record s { div = bit_and val 0x0FFF }
    else if reg == 0x08
    then record s { ctr = bit_and val 0xFFFF }
    else if reg == 0x0C
    then record s { cc = val }
    else if reg == 0x10
    then record s { top = bit_and val 0xFFFF }
    else s

module _ {W : Type 0} where
  -- `mode` is `membus_rp2350_mode`; the registers at 0xA0 are there on the RP2040 only.
  unfoldable pub read_globals : ℕ → ℕ → Pwm W → ℕ
  read_globals mode offset s =
      if offset == 0xF0
      then s.en
      else if offset == 0xF4
      then s.intr
      else if offset == 0xF8
      then s.inte
      else if offset == 0xFC
      then s.intf
      else if offset == 0x100
      then bit_and (bit_or s.intr s.intf) s.inte
      else if offset == 0x104
      then s.inte1
      else if offset == 0x108
      then s.intf1
      else if offset == 0x10C
      then bit_and (bit_or s.intr s.intf1) s.inte1
      else if not (mode == 0)
      then 0
      else if offset == 0xA0
      then s.en
      else if offset == 0xA4
      then s.intr
      else if offset == 0xA8
      then s.inte
      else if offset == 0xAC
      then s.intf
      else if offset == 0xB0
      then bit_and (bit_or s.intr s.intf) s.inte
      else 0

  unfoldable pub pwm_read32 : ℕ → ℕ → Pwm W → ℕ
  pwm_read32 mode offset s =
      if ltb offset (pwm_nslices mode * 0x14)
      then read_slice (offset % 0x14) (s.slice (offset / 0x14))
      else read_globals mode offset s

  -- The two `switch` statements on the global registers.
  unfoldable pub write_globals : ℕ → ℕ → Pwm W → Pwm W
  write_globals offset val s =
      let v = bit_and val 0xFFF in
      if offset == 0xF0
      then record s { en = v }
      else if offset == 0xF4
      then record s { intr = bit_and s.intr (not32 v) }
      else if offset == 0xF8
      then record s { inte = v }
      else if offset == 0xFC
      then record s { intf = v }
      else if offset == 0x104
      then record s { inte1 = v }
      else if offset == 0x108
      then record s { intf1 = v }
      else s

  unfoldable pub write_legacy : ℕ → ℕ → Pwm W → Pwm W
  write_legacy offset val s =
      let v = bit_and val 0xFF in
      if offset == 0xA0
      then record s { en = v }
      else if offset == 0xA4
      then record s { intr = bit_and s.intr (not32 v) }
      else if offset == 0xA8
      then record s { inte = v }
      else if offset == 0xAC
      then record s { intf = v }
      else s

  module _ (nvic_signal_rp2350_irq : ℕ → W → W) where
    -- IRQ_PWM_IRQ_WRAP is 4.
    unfoldable pub signal_wrap : Pwm W → Pwm W
    signal_wrap s =
        if not (bit_and (bit_or s.intr s.intf) s.inte == 0)
          || not (bit_and (bit_or s.intr s.intf1) s.inte1 == 0)
        then record s { nvic = nvic_signal_rp2350_irq 4 s.nvic }
        else s

    unfoldable pub pwm_write32 : ℕ → ℕ → ℕ → Pwm W → Pwm W
    pwm_write32 mode offset val s =
        let i = offset / 0x14 in
        let written = write_globals offset val s in
        let legacy = write_legacy offset val written in
        if ltb offset (pwm_nslices mode * 0x14)
        then record s { slice = put_core s.slice i (write_slice (offset % 0x14) val (s.slice i)) }
        else signal_wrap (if mode == 0 then legacy else written)
