-- ===== src/Thumb32/Multiply.antt =====
-- The products and quotients in `t32_misc` of src/thumb32.c.
use picoemu.Base.{
  ℕ, ◌+◌, ◌*◌, ◌/◌, bit_and, bit_or, ◌==◌, if◌then◌else◌, ◌<<◌, ◌>>◌, u32, u64, sub32,
}
use picoemu.Base.Int.{ℤ, pos, pos_part, neg_part, sub_ℕ, ◌+ℤ◌, ◌-ℤ◌, ◌*ℤ◌, signed32, int_word}
use picoemu.Thumb.State.{Cpu, set_reg}
use picoemu.Thumb.Flags.{bits}
use picoemu.Thumb.Block.{not_zero}
use picoemu.Thumb32.Dsp.{set_low, lane_int}

-- `Rn` and `Rm` of the code, and the fields `Rd` (RdHi) and `Ra` (RdLo).
abbrev pub rn_of : ℕ → Cpu → ℕ
rn_of upper c = c.r (bit_and upper 0xF)

abbrev pub rm_of : ℕ → Cpu → ℕ
rm_of lower c = c.r (bit_and lower 0xF)

abbrev pub rd_of : ℕ → ℕ
rd_of lower = bits lower 8 0xF

abbrev pub ra_of : ℕ → ℕ
ra_of lower = bits lower 12 0xF

-- The accumulator, and zero for Ra = 15.
abbrev accumulator : ℕ → Cpu → ℕ
accumulator lower c = if ra_of lower == 15 then 0 else c.r (ra_of lower)

-- The product of the low halves, and of the high ones.
abbrev low_product : ℕ → ℕ → ℤ
low_product a b = lane_int 16 a 0 *ℤ lane_int 16 b 0

abbrev high_product : ℕ → ℕ → ℤ
high_product a b = lane_int 16 a 1 *ℤ lane_int 16 b 1

-- SMLAD and SMLSD.
unfoldable pub dual_multiply : ℕ → ℕ → Cpu → Cpu
dual_multiply upper lower c =
    let p1 = low_product (rn_of upper c) (rm_of lower c) in
    let p2 = high_product (rn_of upper c) (rm_of lower c) in
    let p = if not_zero (bits upper 5 1) then p1 +ℤ p2 else p1 -ℤ p2 in
    set_low (rd_of lower) (u32 (accumulator lower c + int_word 32 p)) c

-- `((uint64_t)cpu.r[RdHi] << 32) | cpu.r[RdLo]`, and the two stores in the code's order.
abbrev pub long_of : ℕ → Cpu → ℕ
long_of lower c = bit_or (c.r (rd_of lower) << 32) (c.r (ra_of lower))

abbrev pub set_long : ℕ → ℕ → Cpu → Cpu
set_long lower value c = set_reg (rd_of lower) (value >> 32) (set_reg (ra_of lower) (u32 value) c)

-- SMLALD and SMLSLD.
unfoldable pub dual_multiply_long : ℕ → ℕ → Cpu → Cpu
dual_multiply_long upper lower c =
    let p =
      low_product (rn_of upper c) (rm_of lower c) +ℤ high_product (rn_of upper c) (rm_of lower c) in
    let acc = pos (long_of lower c) in
    set_long lower (int_word 64 (if not_zero (bits upper 4 1) then acc -ℤ p else acc +ℤ p)) c

-- `a / b` of integers is rounded towards zero; the quotient of INT32_MIN by -1, which C leaves open, wraps
-- here.
abbrev pub quotient : ℤ → ℤ → ℤ
quotient a b =
    let q = (pos_part a + neg_part a) / (pos_part b + neg_part b) in
    if (neg_part a == 0)
    then (if neg_part b == 0 then pos q else sub_ℕ 0 q)
    else if neg_part b == 0
    then sub_ℕ 0 q
    else pos q

unfoldable pub sdiv : ℕ → ℕ → Cpu → Cpu
sdiv upper lower c =
    let divisor = rm_of lower c in
    let q = int_word 32 (quotient (signed32 (rn_of upper c)) (signed32 divisor)) in
    set_reg (rd_of lower) (if divisor == 0 then 0 else q) c

unfoldable pub udiv : ℕ → ℕ → Cpu → Cpu
udiv upper lower c =
    let divisor = rm_of lower c in
    set_reg (rd_of lower) (if divisor == 0 then 0 else rn_of upper c / divisor) c

unfoldable pub mul : ℕ → ℕ → Cpu → Cpu
mul upper lower c = set_reg (rd_of lower) (u32 (rn_of upper c * rm_of lower c)) c

unfoldable pub mla : ℕ → ℕ → Cpu → Cpu
mla upper lower c =
    set_reg (rd_of lower) (u32 (rn_of upper c * rm_of lower c + c.r (ra_of lower))) c

unfoldable pub mls : ℕ → ℕ → Cpu → Cpu
mls upper lower c =
    set_reg (rd_of lower) (sub32 (c.r (ra_of lower)) (u32 (rn_of upper c * rm_of lower c))) c

abbrev signed_product : ℕ → ℕ → ℤ
signed_product a b = signed32 a *ℤ signed32 b

unfoldable pub smull : ℕ → ℕ → Cpu → Cpu
smull upper lower c =
    set_long lower (int_word 64 (signed_product (rn_of upper c) (rm_of lower c))) c

unfoldable pub umull : ℕ → ℕ → Cpu → Cpu
umull upper lower c = set_long lower (rn_of upper c * rm_of lower c) c

unfoldable pub umlal : ℕ → ℕ → Cpu → Cpu
umlal upper lower c = set_long lower (u64 (long_of lower c + rn_of upper c * rm_of lower c)) c

unfoldable pub smlal : ℕ → ℕ → Cpu → Cpu
smlal upper lower c =
    let product = signed_product (rn_of upper c) (rm_of lower c) in
    set_long lower (int_word 64 (pos (long_of lower c) +ℤ product)) c

-- SMMUL, SMMULR, SMMLA and SMMLAR: the high word of the product, rounded or not.
unfoldable pub high_multiply : ℕ → ℕ → Cpu → Cpu
high_multiply upper lower c =
    let prod = int_word 64 (signed_product (rn_of upper c) (rm_of lower c)) in
    let hi = prod >> 32 in
    let rounded = u64 (prod + 0x80000000) >> 32 in
    let word = if not_zero (bits lower 4 1) then rounded else hi in
    let res = if ra_of lower == 15 then word else u32 (word + c.r (ra_of lower)) in
    set_low (rd_of lower) res c

-- SMUAD and SMUSD.
unfoldable pub dual_product : ℕ → ℕ → Cpu → Cpu
dual_product upper lower c =
    let p1 = low_product (rn_of upper c) (rm_of lower c) in
    let p2 = high_product (rn_of upper c) (rm_of lower c) in
    let p = if not_zero (bits lower 4 1) then p1 -ℤ p2 else p1 +ℤ p2 in
    set_low (rd_of lower) (int_word 32 p) c

-- SMMLSR.
unfoldable pub high_subtract : ℕ → ℕ → Cpu → Cpu
high_subtract upper lower c =
    let hi = int_word 64 (signed_product (rn_of upper c) (rm_of lower c)) >> 32 in
    set_low (rd_of lower) (sub32 hi (c.r (ra_of lower))) c
