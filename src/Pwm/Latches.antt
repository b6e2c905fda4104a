-- ===== src/Pwm/Latches.antt =====
-- Reads of the slice registers of src/pwm.c after writes.
use picoemu.Base.{
  ℕ, ◌*◌, ◌/◌, ◌%◌, ◌^◌, ◌<◌, ◌≡◌, refl, ◌∙◌, inl, inr, true, false, Bool-cases, ◌||◌, ltb, lt→ltb,
  ◌==◌, if◌then◌else◌, arith,
}
use picoemu.Base.Bits.{bit_and_mask}
use picoemu.Pwm.Slices.{
  PwmSlice, Pwm, pwm_nslices, read_slice, write_slice, pwm_read32, pwm_write32,
}

-- What a slice register keeps of a value, by its offset in the slice.
abbrev pub kept_bits : ℕ → ℕ → ℕ
kept_bits reg val =
    if reg == 0
    then val % 2 ^ 8
    else if reg == 4
    then val % 2 ^ 12
    else if reg == 12
    then val
    else if (reg == 8) || (reg == 16)
    then val % 2 ^ 16
    else 0

read_slice-write_slice :
    (r q val : ℕ) (s : PwmSlice)
    → read_slice r (write_slice q val s) ≡ (if r == q then kept_bits q val else read_slice r s)
unfolding read_slice write_slice
read_slice-write_slice r q val s =
    ground (arith, bit_and_mask 8 val, bit_and_mask 12 val, bit_and_mask 16 val)

module _ {W : Type 0} (signal : ℕ → W → W) where
  -- At two offsets in the slices that the layout has: after a write the same register reads as the bits
  -- that it has of the value, and every other one as before.
  pub pwm_read32-pwm_write32 :
      (mode offset at val : ℕ) (s : Pwm W)
      → offset < pwm_nslices mode * 0x14
      → at < pwm_nslices mode * 0x14
      → pwm_read32 mode at (pwm_write32 signal mode offset val s)
        ≡ (if at == offset then kept_bits (offset % 0x14) val else pwm_read32 mode at s)
  unfolding pwm_read32 pwm_write32
  pwm_read32-pwm_write32 mode offset at val s inside reads =
      let e : ltb offset (pwm_nslices mode * 0x14) ≡ true =
        lt→ltb offset (pwm_nslices mode * 0x14) inside in
      let f : ltb at (pwm_nslices mode * 0x14) ≡ true = lt→ltb at (pwm_nslices mode * 0x14) reads in
      let r = at % 0x14 in
      let q = offset % 0x14 in
      elim (Bool-cases (offset / 0x14 == at / 0x14)) [
        | inl same ↦
            let slice : offset / 0x14 ≡ at / 0x14 = ground arith in
            let which : (r == q) ≡ (at == offset) = ground arith in
            rw (e, f, same)
              (read_slice-write_slice r q val (s.slice (offset / 0x14)) ∙ rw (which, slice) refl)
        | inr other ↦
            let apart : (at == offset) ≡ false = ground arith in rw (e, f, other, apart) refl
      ]
