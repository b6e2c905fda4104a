-- ===== src/Thumb32/BitFields.antt =====
-- The bit field instructions of src/thumb32.c: what UBFX takes out and what BFI puts in.
use native.Mathlib.Nat.{mod-lt, one-le-pow}
use picoemu.Base.Bits.{bit_and_mask, quotient_of}
use picoemu.Base.{
  ℕ, ◌+◌, ◌-◌, ◌*◌, ◌/◌, ◌%◌, ◌^◌, ◌≤◌, ◌<◌, ◌≡◌, refl, ◌∙◌, bit_and, arith, Bool-cases, inl, inr,
  true, false, ◌==◌, ==_iff, leb, if◌then◌else◌,
}
use picoemu.Thumb.State.{Cpu, set_reg, IsWord}
use picoemu.Thumb32.Dsp.{amount_of}
use picoemu.Thumb32.Multiply.{rd_of}
use picoemu.Thumb32.Fields.{width_mask, ubfx, bfi}
use picoemu.Thumb32.Insertion.{inserted}

-- The mask of UBFX and SBFX.
width_mask_lem : (top : ℕ) → width_mask top ≡ 2 ^ (top + 1) - 1
width_mask_lem top = elim (Bool-cases (top == 31)) [
  | inl e ↦ let last : top ≡ 31 = (==_iff top 31).0 e in rw last
  | inr e ↦ rw e
]

-- What UBFX stores.
extracted :
    (upper lower : ℕ) (c : Cpu)
    → ubfx upper lower c
      ≡ set_reg
          (rd_of lower)
          (c.r (bit_and upper 0xF) / 2 ^ amount_of lower % 2 ^ (bit_and lower 0x1F + 1))
          c
unfolding ubfx
extracted upper lower c = rw (
  width_mask_lem (bit_and lower 0x1F),
  bit_and_mask (bit_and lower 0x1F + 1) (c.r (bit_and upper 0xF) / 2 ^ amount_of lower),
)

taken_out :
    (w l a v r : ℕ) → v < 2 ^ w → r < 2 ^ l → ((a * 2 ^ w + v) * 2 ^ l + r) / 2 ^ l % 2 ^ w ≡ v
taken_out w l a v r h g = rw (quotient_of l (a * 2 ^ w + v) r g) (grind arith)

-- The field of a BFI or BFC: the lowest bit, the width, and what is put in, 0 for BFC.
abbrev pub width_of : ℕ → ℕ
width_of lower = bit_and lower 0x1F - amount_of lower + 1

abbrev pub put_in : ℕ → Cpu → ℕ
put_in upper c = if bit_and upper 0xF == 15 then 0 else c.r (bit_and upper 0xF)

-- In every state of 32-bit words and for every two halfwords of a BFI or BFC whose field is neither empty
-- nor the whole word: the destination keeps the bits above and below the field, and in the field it has
-- the lowest bits of the source, or zeros for BFC; nothing else changes. A UBFX whose source is that
-- destination and whose field is the same then stores these lowest bits alone, and changes nothing else.
pub ubfx-bfi :
    (wide upper lower upper' lower' : ℕ) (c : Cpu)
    → IsWord c
    → amount_of lower ≤ bit_and lower 0x1F
    → width_of lower < 32
    → bit_and upper' 0xF ≡ rd_of lower
    → amount_of lower' ≡ amount_of lower
    → bit_and lower' 0x1F + 1 ≡ width_of lower
    → let l = amount_of lower in
      let w = width_of lower in
      let old = c.r (rd_of lower) in
      let v = put_in upper c % 2 ^ w in
      let after = bfi wide upper lower c in
      (after ≡ set_reg (rd_of lower) ((old / 2 ^ l / 2 ^ w * 2 ^ w + v) * 2 ^ l + old % 2 ^ l) c)
      × (ubfx upper' lower' after ≡ set_reg (rd_of lower') v after)
unfolding bfi
ubfx-bfi wide upper lower upper' lower' c word some_bits narrow from same_low same_width =
    let l = amount_of lower in
    let w = width_of lower in
    let old = c.r (rd_of lower) in
    let top : bit_and lower 0x1F < 32 = rw (bit_and_mask 5 lower) (omega arith) in
    let order : leb (amount_of lower) (bit_and lower 0x1F) ≡ true = ground arith in
    let partial : (w == 32) ≡ false = ground arith in
    let put =
      inserted (32 - w - l) w l old (put_in upper c) (omega arith) (word.regs (rd_of lower)) in
    let stored : bfi wide upper lower c
        ≡ set_reg (rd_of lower)
            ((old / 2 ^ l / 2 ^ w * 2 ^ w + put_in upper c % 2 ^ w) * 2 ^ l + old % 2 ^ l) c =
      rw (order, partial, put) in
    let self : (rd_of lower == rd_of lower) ≡ true = (==_iff (rd_of lower) (rd_of lower)).1 refl in
    (
      stored,
      extracted upper' lower' (bfi wide upper lower c)
          ∙ rw (
            stored,
            from,
            same_low,
            same_width,
            self,
            taken_out w l (old / 2 ^ l / 2 ^ w) (put_in upper c % 2 ^ w) (old % 2 ^ l)
                (mod-lt (put_in upper c) (one-le-pow w 2 (omega arith)))
                (mod-lt old (one-le-pow l 2 (omega arith))),
          ),
    )
