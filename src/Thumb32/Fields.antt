-- ===== src/Thumb32/Fields.antt =====
-- The bit fields, extensions, reversals, counts and shifts in `t32_misc` of src/thumb32.c.
use picoemu.Base.{
  ℕ, zero, suc, ◌+◌, ◌-◌, ◌*◌, ◌/◌, ◌^◌, bit_and, bit_or, not, ◌==◌, leb, if◌then◌else◌, ◌<<◌, ◌>>◌,
  u32, not32,
}
use picoemu.Thumb.State.{Cpu, set_reg, set_pc}
use picoemu.Thumb.Flags.{bits, put_carry, update_nz_flags, sign_extend_8, sign_extend_16}
use picoemu.Thumb.Block.{not_zero}
use picoemu.Thumb32.Operand.{t32_shift_c}
use picoemu.Thumb32.Dsp.{amount_of}
use picoemu.Thumb32.Multiply.{rn_of, rm_of, rd_of}

-- `__builtin_clz` of a number of `width` bits that is not 0.
unfoldable pub clz : ℕ → ℕ → ℕ
clz zero x = 0
clz (suc width) x = let rest = clz width x in if x / 2 ^ width == 0 then suc rest else 0

unfoldable pub count_zeros : ℕ → Cpu → Cpu
count_zeros lower c =
    let v = rm_of lower c in set_reg (rd_of lower) (if not_zero v then clz 32 v else 32) c

-- The loop of RBIT: `left` rounds.
unfoldable pub rbit_loop : ℕ → ℕ → ℕ → ℕ
rbit_loop zero v r = r
rbit_loop (suc left) v r = rbit_loop left (v >> 1) (bit_or (u32 (r << 1)) (bit_and v 1))

unfoldable pub reverse_bits : ℕ → Cpu → Cpu
unfolding rbit_loop
reverse_bits lower c = set_reg (rd_of lower) (rbit_loop 32 (rm_of lower c) 0) c

-- REV.
unfoldable pub rev_word : ℕ → Cpu → Cpu
rev_word lower c =
    let v = rm_of lower c in
    let res =
      bit_or
        (bit_or (bit_or (bit_and v 0xFF << 24) (bit_and v 0xFF00 << 8)) (bit_and v 0xFF0000 >> 8))
        (bits v 24 0xFF) in
    set_reg (rd_of lower) res c

-- A mask of `widthm1 + 1` ones.
abbrev pub width_mask : ℕ → ℕ
width_mask widthm1 = if widthm1 == 31 then 0xFFFFFFFF else 2 ^ (widthm1 + 1) - 1

unfoldable pub ubfx : ℕ → ℕ → Cpu → Cpu
ubfx upper lower c =
    let mask = width_mask (bit_and lower 0x1F) in
    set_reg (rd_of lower) (bit_and (rn_of upper c >> amount_of lower) mask) c

-- The sign is spread by a shift of 1u by `widthm1 + 1`, which C leaves open for a width of 32; `wide` is
-- what it gives there.
unfoldable pub sbfx : ℕ → ℕ → ℕ → Cpu → Cpu
sbfx wide upper lower c =
    let widthm1 = bit_and lower 0x1F in
    let extracted = bit_and (rn_of upper c >> amount_of lower) (width_mask widthm1) in
    let spread = if widthm1 == 31 then wide else 2 ^ (widthm1 + 1) in
    let signed = bit_or extracted (not32 (u32 (spread + 0xFFFFFFFF))) in
    set_reg (rd_of lower) (if not_zero (extracted >> widthm1) then signed else extracted) c

-- BFI and BFC. The mask shifts 1u by the width; `wide` is what that gives for 32.
unfoldable pub bfi : ℕ → ℕ → ℕ → Cpu → Cpu
bfi wide upper lower c =
    let lsbit = amount_of lower in
    let msbit = bit_and lower 0x1F in
    let width = msbit - lsbit + 1 in
    let one = if width == 32 then wide else 2 ^ width in
    let mask = u32 (u32 (one + 0xFFFFFFFF) << lsbit) in
    let src = if bit_and upper 0xF == 15 then 0 else rn_of upper c in
    let rd = rd_of lower in
    let res = bit_or (bit_and (c.r rd) (not32 mask)) (bit_and (u32 (src << lsbit)) mask) in
    if leb lsbit msbit then set_reg rd res c else c

-- `if (rot) val = (val >> rot) | (val << (32 - rot));` with the rotation by bytes.
abbrev pub rotated : ℕ → Cpu → ℕ
rotated lower c =
    let rot = bits lower 4 3 * 8 in
    let val = rm_of lower c in
    if not_zero rot then bit_or (val >> rot) (u32 (val << (32 - rot))) else val

unfoldable pub sxtb : ℕ → Cpu → Cpu
unfolding sign_extend_8
sxtb lower c = set_reg (rd_of lower) (sign_extend_8 (bit_and (rotated lower c) 0xFF)) c

unfoldable pub sxth : ℕ → Cpu → Cpu
unfolding sign_extend_16
sxth lower c = set_reg (rd_of lower) (sign_extend_16 (bit_and (rotated lower c) 0xFFFF)) c

unfoldable pub uxtb : ℕ → Cpu → Cpu
uxtb lower c = set_reg (rd_of lower) (bit_and (rotated lower c) 0xFF) c

unfoldable pub uxth : ℕ → Cpu → Cpu
uxth lower c = set_reg (rd_of lower) (bit_and (rotated lower c) 0xFFFF) c

-- SXTAB, SXTAH, UXTAB and UXTAH.
unfoldable pub extend_add : ℕ → ℕ → Cpu → Cpu
unfolding sign_extend_8 sign_extend_16
extend_add upper lower c =
    let val = rotated lower c in
    let op = bits upper 4 0xF in
    let ext =
      if op == 0x4
      then sign_extend_8 (bit_and val 0xFF)
      else if op == 0x0
      then sign_extend_16 (bit_and val 0xFFFF)
      else if op == 0x5
      then bit_and val 0xFF
      else bit_and val 0xFFFF in
    let rd = rd_of lower in
    let sum = u32 (rn_of upper c + ext) in if rd == 15 then set_pc sum c else set_reg rd sum c

-- LSL, LSR, ASR and ROR by a register.
unfoldable pub shift_register : ℕ → ℕ → Cpu → Cpu
unfolding t32_shift_c
shift_register upper lower c =
    let rd = rd_of lower in
    let out = t32_shift_c (rn_of upper c) (bits upper 5 0x3) (bit_and (rm_of lower c) 0xFF) c in
    let stored = set_reg rd out.0 c in
    if not (rd == 15)
    then (if not_zero (bits upper 4 1)
        then put_carry out.1 (update_nz_flags out.0 stored)
        else stored)
    else c
