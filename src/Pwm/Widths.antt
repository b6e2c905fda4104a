-- ===== src/Pwm/Widths.antt =====
-- The widths of the registers of src/pwm.c.
use picoemu.Base.{
  ℕ, ◌*◌, ◌/◌, ◌%◌, ◌^◌, ◌<◌, inl, inr, bit_and, bit_or, Bool-cases, not, ◌||◌, ltb, ◌==◌, not32,
  arith,
}
use picoemu.Base.Bits.{bit_and_mask, bit_and-lt, bit_or-lt}
use picoemu.Base.Scan.{bit_and-le}
use picoemu.Nvic.State.{put_core}
use picoemu.Pwm.Slices.{
  PwmSlice, Pwm, pwm_nslices, read_slice, write_slice, read_globals, pwm_read32, write_globals,
  write_legacy, signal_wrap, pwm_write32, pwm_init,
}

-- The bits that the slices have.
pub record IsSlice (s : PwmSlice) : Type 0 where
  pub csr : s.csr < 2 ^ 8
  pub div : s.div < 2 ^ 12
  pub ctr : s.ctr < 2 ^ 16
  pub cc : s.cc < 2 ^ 32
  pub top : s.top < 2 ^ 16

-- The global registers have a bit for each of twelve slices.
pub record IsPwm {W : Type 0} (s : Pwm W) : Type 0 where
  pub slices : (i : ℕ) → IsSlice (s.slice i)
  pub en : s.en < 2 ^ 12
  pub intr : s.intr < 2 ^ 12
  pub inte : s.inte < 2 ^ 12
  pub intf : s.intf < 2 ^ 12
  pub inte1 : s.inte1 < 2 ^ 12
  pub intf1 : s.intf1 < 2 ^ 12

write_slice-IsSlice :
    (reg val : ℕ) (s : PwmSlice) → val < 2 ^ 32 → IsSlice s → IsSlice (write_slice reg val s)
unfolding write_slice
write_slice-IsSlice reg val s small good = record {
  csr = ground (arith, bit_and_mask 8 val, good.csr);
  div = ground (arith, bit_and_mask 12 val, good.div);
  ctr = ground (arith, bit_and_mask 16 val, good.ctr);
  cc = ground (arith, good.cc);
  top = ground (arith, bit_and_mask 16 val, good.top);
}

read_slice-lt : (reg : ℕ) (s : PwmSlice) → IsSlice s → read_slice reg s < 2 ^ 32
unfolding read_slice
read_slice-lt reg s good = ground (arith, good.csr, good.div, good.ctr, good.cc, good.top)

module _ {W : Type 0} where
  write_globals-IsPwm : (offset val : ℕ) (s : Pwm W) → IsPwm s → IsPwm (write_globals offset val s)
  unfolding write_globals
  write_globals-IsPwm offset val s good =
      let mask = bit_and_mask 12 val in
      record {
        slices = λ i.
            let old = good.slices i in
            record {
              csr = ground (arith, old.csr);
              div = ground (arith, old.div);
              ctr = ground (arith, old.ctr);
              cc = ground (arith, old.cc);
              top = ground (arith, old.top);
            };
        en = ground (arith, mask, good.en);
        intr = ground (arith, good.intr, bit_and-le s.intr (not32 (bit_and val 0xFFF)));
        inte = ground (arith, mask, good.inte);
        intf = ground (arith, mask, good.intf);
        inte1 = ground (arith, mask, good.inte1);
        intf1 = ground (arith, mask, good.intf1);
      }

  write_legacy-IsPwm : (offset val : ℕ) (s : Pwm W) → IsPwm s → IsPwm (write_legacy offset val s)
  unfolding write_legacy
  write_legacy-IsPwm offset val s good =
      let mask = bit_and_mask 8 val in
      record {
        slices = λ i.
            let old = good.slices i in
            record {
              csr = ground (arith, old.csr);
              div = ground (arith, old.div);
              ctr = ground (arith, old.ctr);
              cc = ground (arith, old.cc);
              top = ground (arith, old.top);
            };
        en = ground (arith, mask, good.en);
        intr = ground (arith, good.intr, bit_and-le s.intr (not32 (bit_and val 0xFF)));
        inte = ground (arith, mask, good.inte);
        intf = ground (arith, mask, good.intf);
        inte1 = ground (arith, good.inte1);
        intf1 = ground (arith, good.intf1);
      }

  read_globals-lt : (mode offset : ℕ) (s : Pwm W) → IsPwm s → read_globals mode offset s < 2 ^ 32
  unfolding read_globals
  read_globals-lt mode offset s good =
      let line0 =
        bit_and-lt 12 (bit_or s.intr s.intf) s.inte (bit_or-lt 12 s.intr s.intf good.intr good.intf)
          good.inte in
      let line1 =
        bit_and-lt 12 (bit_or s.intr s.intf1) s.inte1
          (bit_or-lt 12 s.intr s.intf1 good.intr good.intf1) good.inte1 in
      ground (arith, good.en, good.intr, good.inte, good.intf, good.inte1, good.intf1, line0, line1)

  pwm_read32-lt : (mode offset : ℕ) (s : Pwm W) → IsPwm s → pwm_read32 mode offset s < 2 ^ 32
  unfolding pwm_read32
  pwm_read32-lt mode offset s good = elim (Bool-cases (ltb offset (pwm_nslices mode * 0x14))) [
    | inl e ↦
        rw e (read_slice-lt (offset % 0x14) (s.slice (offset / 0x14)) (good.slices (offset / 0x14)))
    | inr e ↦ rw e (read_globals-lt mode offset s good)
  ]

  module _ (signal : ℕ → W → W) where
    signal_wrap-IsPwm : (s : Pwm W) → IsPwm s → IsPwm (signal_wrap signal s)
    unfolding signal_wrap
    signal_wrap-IsPwm s good =
        elim (Bool-cases (
          not (bit_and (bit_or s.intr s.intf) s.inte == 0)
          || not (bit_and (bit_or s.intr s.intf1) s.inte1 == 0))) [
            | inl e ↦ rw e (record {
              slices = good.slices;
              en = good.en;
              intr = good.intr;
              inte = good.inte;
              intf = good.intf;
              inte1 = good.inte1;
              intf1 = good.intf1;
            })
            | inr e ↦ rw e good
          ]

    slice_written :
        (i : ℕ) (new : PwmSlice) (s : Pwm W)
        → IsPwm s
        → IsSlice new
        → IsPwm (record s { slice = put_core s.slice i new })
    slice_written i new s good fits = record {
      slices = λ j. elim (Bool-cases (i == j)) [ inl e ↦ rw e fits | inr e ↦ rw e (good.slices j) ];
      en = good.en;
      intr = good.intr;
      inte = good.inte;
      intf = good.intf;
      inte1 = good.inte1;
      intf1 = good.intf1;
    }

    pwm_write32-IsPwm :
        (mode offset val : ℕ) (s : Pwm W)
        → val < 2 ^ 32
        → IsPwm s
        → IsPwm (pwm_write32 signal mode offset val s)
    unfolding pwm_write32
    pwm_write32-IsPwm mode offset val s small good =
        let i = offset / 0x14 in
        let globals = write_globals-IsPwm offset val s good in
        let legacy = write_legacy-IsPwm offset val (write_globals offset val s) globals in
        elim (Bool-cases (ltb offset (pwm_nslices mode * 0x14))) [
          | inl e ↦ rw e (
              slice_written i (write_slice (offset % 0x14) val (s.slice i)) s good
                (write_slice-IsSlice (offset % 0x14) val (s.slice i) small (good.slices i)))
          | inr e ↦ elim (Bool-cases (mode == 0)) [
            | inl f ↦ rw (e, f) (signal_wrap-IsPwm _ legacy)
            | inr f ↦ rw (e, f) (signal_wrap-IsPwm _ globals)
          ]
        ]

    -- From a state in which every register has no more bits than its width, after the reset and after a
    -- write of any 32-bit value at any offset, in either layout, it is so again, and what is then read
    -- at any offset has 32 bits.
    pub pwm_write32-widths :
        (mode offset val at : ℕ) (s : Pwm W)
        → val < 2 ^ 32
        → IsPwm s
        → IsPwm (pwm_init s)
          × IsPwm (pwm_write32 signal mode offset val s)
          × (pwm_read32 mode at (pwm_write32 signal mode offset val s) < 2 ^ 32)
    unfolding pwm_init
    pwm_write32-widths mode offset val at s small good =
        let kept = pwm_write32-IsPwm mode offset val s small good in
        let reset : IsPwm (pwm_init s) = record {
          slices = λ i. record {
            csr = omega arith;
            div = ground arith;
            ctr = omega arith;
            cc = omega arith;
            top = ground arith;
          };
          en = omega arith;
          intr = omega arith;
          inte = omega arith;
          intf = omega arith;
          inte1 = omega arith;
          intf1 = omega arith;
        } in
        (reset, kept, pwm_read32-lt mode at (pwm_write32 signal mode offset val s) kept)
