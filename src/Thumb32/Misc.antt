-- ===== src/Thumb32/Misc.antt =====
-- The decoder `t32_misc` of src/thumb32.c: the patterns in their order.
use picoemu.Base.{ℕ, bit_and, Bool, not, ◌&&◌, ◌||◌, ◌==◌, if◌then◌else◌, Option, none, some}
use picoemu.Thumb.State.{Cpu}
use picoemu.Thumb.Flags.{bits}
use picoemu.Thumb.System.{instr_msr_32, instr_mrs_32}
use picoemu.Thumb32.Dsp.{
  parallel_add_sub, select_bytes, pack_halves, saturate_halves, saturate_word,
}
use picoemu.Thumb32.Multiply.{
  dual_multiply, dual_multiply_long, sdiv, udiv, mul, mla, mls, smull, umull, umlal, smlal,
  high_multiply, dual_product, high_subtract,
}
use picoemu.Thumb32.Fields.{
  count_zeros, reverse_bits, rev_word, ubfx, sbfx, bfi, sxtb, sxth, uxtb, uxth, extend_add,
  shift_register,
}

abbrev pub matches : ℕ → ℕ → ℕ → Bool
matches x mask pattern = bit_and x mask == pattern

-- The instructions before MSR.
unfoldable pub t32_misc_dsp : ℕ → ℕ → Cpu → Option Cpu
t32_misc_dsp upper lower c =
    let up = matches upper 0xFFF0 in
    if matches upper 0xFF80 0xFA80 && matches lower 0xF0F0 0xF010
    then some (parallel_add_sub upper lower c)
    else if (up 0xFB20 || up 0xFB40) && matches lower 0x00F0 0x0000
    then some (dual_multiply upper lower c)
    else if (up 0xFBC0 || up 0xFBD0) && matches lower 0x00F0 0x00C0
    then some (dual_multiply_long upper lower c)
    else if up 0xFAA0 && matches lower 0xF0F0 0xF080
    then some (select_bytes upper lower c)
    else if up 0xEAC0 && matches lower 0xF000 0x0000
    then some (pack_halves upper lower c)
    else if (up 0xF320 || up 0xF3A0) && matches lower 0xF0C0 0x0000
    then some (saturate_halves upper lower c)
    else none

-- From MSR to the products.
unfoldable pub t32_misc_products : ℕ → ℕ → Cpu → Option Cpu
t32_misc_products upper lower c =
    let up = matches upper 0xFFF0 in
    let ra = bits lower 12 0xF in
    if up 0xF380 && matches lower 0xFF00 0x8800
    then some (instr_msr_32 (bit_and upper 0xF) (bit_and lower 0xFF) c)
    else if (upper == 0xF3EF) && matches lower 0xF000 0x8000
    then some (instr_mrs_32 (bits lower 8 0xF) (bit_and lower 0xFF) c)
    else if (upper == 0xF3BF) && matches lower 0xFF00 0x8F00
    then some c
    else if up 0xFB90 && matches lower 0xF0F0 0xF0F0
    then some (sdiv upper lower c)
    else if up 0xFBB0 && matches lower 0xF0F0 0xF0F0
    then some (udiv upper lower c)
    else if up 0xFB00 && matches lower 0xF0F0 0xF000
    then some (mul upper lower c)
    else if up 0xFB00 && matches lower 0x00F0 0x0000 && not (ra == 15)
    then some (mla upper lower c)
    else if up 0xFB00 && matches lower 0x00F0 0x0010
    then some (mls upper lower c)
    else if up 0xFB80 && matches lower 0x00F0 0x0000
    then some (smull upper lower c)
    else if up 0xFBA0 && matches lower 0x00F0 0x0000
    then some (umull upper lower c)
    else if up 0xFBE0 && matches lower 0x00F0 0x0000
    then some (umlal upper lower c)
    else if up 0xFBC0 && matches lower 0x00F0 0x0000
    then some (smlal upper lower c)
    else if up 0xFB50 && (matches lower 0x00F0 0x0010 || matches lower 0x00F0 0x0000)
    then some (high_multiply upper lower c)
    else if up 0xFB60 && matches lower 0xF0E0 0xF000
    then some (dual_product upper lower c)
    else if up 0xFB60 && matches lower 0x00F0 0x0010 && not (ra == 15)
    then some (high_subtract upper lower c)
    else none

-- From CLZ on. `wide` is `1u << 32`.
unfoldable pub t32_misc_fields : ℕ → ℕ → ℕ → Cpu → Option Cpu
t32_misc_fields wide upper lower c =
    let up = matches upper 0xFFF0 in
    if up 0xFAB0 && matches lower 0xF0F0 0xF080
    then some (count_zeros lower c)
    else if up 0xFA90 && matches lower 0xF0F0 0xF0A0
    then some (reverse_bits lower c)
    else if up 0xF3C0 && matches lower 0x8000 0x0000
    then some (ubfx upper lower c)
    else if up 0xF340 && matches lower 0x8000 0x0000
    then some (sbfx wide upper lower c)
    else if (matches upper 0xFFC0 0xF300 || matches upper 0xFFC0 0xF380)
        && matches lower 0x8000 0x0000
    then some (saturate_word upper lower c)
    else if up 0xF360 && matches lower 0x8020 0x0000
    then some (bfi wide upper lower c)
    else if (upper == 0xFA4F) && matches lower 0xF0C0 0xF080
    then some (sxtb lower c)
    else if (upper == 0xFA0F) && matches lower 0xF0C0 0xF080
    then some (sxth lower c)
    else if (upper == 0xFA5F) && matches lower 0xF0C0 0xF080
    then some (uxtb lower c)
    else if (upper == 0xFA1F) && matches lower 0xF0C0 0xF080
    then some (uxth lower c)
    else if (up 0xFA40 || up 0xFA00 || up 0xFA50 || up 0xFA10) && matches lower 0xF0C0 0xF080
    then some (extend_add upper lower c)
    else if up 0xFA90 && matches lower 0xF0F0 0xF080
    then some (rev_word lower c)
    else if matches upper 0xFF80 0xFA00 && matches lower 0xF0F0 0xF000
    then some (shift_register upper lower c)
    else if (upper == 0xF3AF) && matches lower 0xFF00 0x8000
    then some c
    else none

-- `none` where the function returns 0.
abbrev pub or_else {ℓ} : {A : Type ℓ} → Option A → Option A → Option A
or_else (some a) next = some a
or_else none next = next

abbrev pub otherwise {ℓ} : {A : Type ℓ} → Option A → A → A
otherwise (some a) next = a
otherwise none next = next

unfoldable pub t32_misc : ℕ → ℕ → ℕ → Cpu → Option Cpu
unfolding t32_misc_dsp t32_misc_products t32_misc_fields
t32_misc wide upper lower c =
    or_else (t32_misc_dsp upper lower c)
      (or_else (t32_misc_products upper lower c) (t32_misc_fields wide upper lower c))
