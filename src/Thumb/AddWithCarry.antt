-- ===== src/Thumb/AddWithCarry.antt =====
-- The additions and subtractions of src/instructions.c against the reference manual's
-- AddWithCarry(x, y, carry): result, carry and signed overflow, with the other bits kept.
use picoemu.Base.{
  ℕ, ◌+◌, ◌-◌, ◌*◌, ◌/◌, ◌%◌, ◌^◌, ◌<◌, ◌≡◌, refl, ◌∙◌, bit_and, bit_xor, Bool, not, ◌==◌, ltb, leb,
  ◌>>◌, u32, u64, sub32, not32, arith,
}
use picoemu.Base.Int.{ℤ, pos, negsuc, ◌+ℤ◌, signed32}
use picoemu.Base.Bits.{bit_and-lt, bit_xor-lt}
use picoemu.Thumb.State.{Cpu}
use picoemu.Thumb.Flags.{
  test, or_if, flag_n, flag_z, flag_c, flag_v, nzcv_mask, update_add_flags, update_sub_flags,
}
use picoemu.Thumb.Arith.{carry_in}
use picoemu.Thumb.Nzcv.{
  digit, digit-lt, flag_n?, flag_z?, flag_c?, flag_v?, replace_nzcv, set_nzcv, test_bit,
  sign_of_and_xor,
}

-- Whether an integer is the value of an `int32_t`.
abbrev pub fits32 : ℤ → Bool
fits32 (pos n) = ltb n (2 ^ 31)
fits32 (negsuc n) = ltb n (2 ^ 31)

abbrev pub unsigned_sum : ℕ → ℕ → ℕ → ℕ
unsigned_sum x y carry = x + y + carry

abbrev pub signed_sum : ℕ → ℕ → ℕ → ℤ
signed_sum x y carry = signed32 x +ℤ signed32 y +ℤ pos carry

-- The flags of `new` are those of AddWithCarry(x, y, carry), and its low bits are those of `old`.
pub record IsAddWithCarry (x y carry old new : ℕ) : Type 0 where
  pub negative : flag_n? new ≡ u32 (unsigned_sum x y carry) / 2 ^ 31
  pub is_zero : flag_z? new ≡ digit (u32 (unsigned_sum x y carry) == 0)
  pub carry_out : flag_c? new ≡ unsigned_sum x y carry / 2 ^ 32
  pub overflow : flag_v? new ≡ digit (not (fits32 (signed_sum x y carry)))
  pub kept : new % 2 ^ 28 ≡ old % 2 ^ 28
  pub is_word : new < 2 ^ 32

-- Addition overflows when the operands agree in sign and the result does not.
add_overflow :
    (x y carry : ℕ)
    → x < 2 ^ 32
    → y < 2 ^ 32
    → carry < 2
    → let r = u32 (unsigned_sum x y carry) in
      not (bit_and (bit_xor x r) (bit_xor y r) >> 31 == 0) ≡ not (fits32 (signed_sum x y carry))
unfolding ◌+ℤ◌
add_overflow x y carry hx hy hc =
    ground (arith, sign_of_and_xor x (u32 (x + y + carry)) y (u32 (x + y + carry)))

-- Subtraction overflows when the operands differ in sign and so do the first and the result.
sub_overflow :
    (x y carry : ℕ)
    → x < 2 ^ 32
    → y < 2 ^ 32
    → carry < 2
    → let r = u32 (unsigned_sum x (not32 y) carry) in
      not (bit_and (bit_xor x y) (bit_xor x r) >> 31 == 0)
      ≡ not (fits32 (signed_sum x (not32 y) carry))
unfolding ◌+ℤ◌
sub_overflow x y carry hx hy hc =
    ground (arith, sign_of_and_xor x y x (u32 (x + (0xFFFFFFFF - y) + carry)))

-- A word whose top bits are given reads back as the four flags.
of_bits-IsAddWithCarry :
    (x y carry old : ℕ) (n z c v : Bool) {new : ℕ}
    → x < 2 ^ 32
    → y < 2 ^ 32
    → carry < 2
    → new ≡ (8 * digit n + 4 * digit z + 2 * digit c + digit v) * 2 ^ 28 + old % 2 ^ 28
    → digit n ≡ u32 (unsigned_sum x y carry) / 2 ^ 31
    → z ≡ (u32 (unsigned_sum x y carry) == 0)
    → digit c ≡ unsigned_sum x y carry / 2 ^ 32
    → v ≡ not (fits32 (signed_sum x y carry))
    → IsAddWithCarry x y carry old new
of_bits-IsAddWithCarry x y carry old n z c v hx hy hk e en ez ec ev =
    let dn : digit n < 2 = digit-lt n in
    let dz : digit z < 2 = digit-lt z in
    let dc : digit c < 2 = digit-lt c in
    let dv : digit v < 2 = digit-lt v in
    record {
      negative = omega arith;
      is_zero = rw (← ez) (omega arith);
      carry_out = omega arith;
      overflow = rw (← ev) (omega arith);
      kept = omega arith;
      is_word = omega arith;
    }

digit_top : (r : ℕ) → r < 2 ^ 32 → digit (not (r >> 31 == 0)) ≡ r / 2 ^ 31
digit_top r h = ground arith

-- The flags of an addition are those of AddWithCarry(x, y, 0).
pub add_flags-IsAddWithCarry :
    (x y : ℕ) (c : Cpu)
    → x < 2 ^ 32
    → y < 2 ^ 32
    → IsAddWithCarry x y 0 c.xpsr (update_add_flags x y (u32 (x + y)) c).xpsr
unfolding update_add_flags
add_flags-IsAddWithCarry x y c hx hy =
    let e : x + y + 0 ≡ x + y = omega arith in
    let r = u32 (x + y) in
    let over = add_overflow x y 0 hx hy (omega arith) in
    of_bits-IsAddWithCarry x y 0 c.xpsr (not (r >> 31 == 0)) (r == 0) (ltb 0xFFFFFFFF (x + y))
      (not (bit_and (bit_xor x r) (bit_xor y r) >> 31 == 0)) hx hy (omega arith)
      (replace_nzcv _ _ _ _ c.xpsr) (rw e (digit_top (u32 (x + y)) (omega arith))) (rw e)
      (ground arith) (rw e at over)

-- The flags of a subtraction are those of AddWithCarry(x, NOT y, 1).
pub sub_flags-IsAddWithCarry :
    (x y : ℕ) (c : Cpu)
    → x < 2 ^ 32
    → y < 2 ^ 32
    → IsAddWithCarry x (not32 y) 1 c.xpsr (update_sub_flags x y (sub32 x y) c).xpsr
unfolding update_sub_flags
sub_flags-IsAddWithCarry x y c hx hy =
    let e : sub32 x y ≡ u32 (x + not32 y + 1) = omega arith in
    of_bits-IsAddWithCarry x (not32 y) 1 c.xpsr (not (sub32 x y >> 31 == 0)) (sub32 x y == 0)
      (leb y x) (not (bit_and (bit_xor x y) (bit_xor x (sub32 x y)) >> 31 == 0)) hx (omega arith)
      (omega arith) (replace_nzcv _ _ _ _ c.xpsr)
      (rw e (digit_top (u32 (x + not32 y + 1)) (omega arith))) (rw e) (ground arith)
      (rw e (sub_overflow x y 1 hx hy (omega arith)))

-- The carry flag as the carry that goes in.
pub carry_in_lem : (c : Cpu) → carry_in c ≡ flag_c? c.xpsr
carry_in_lem c = ground (arith, test_bit 29 c.xpsr)

-- `r & 0x80000000` asks what `r >> 31` does.
sign_test : (r : ℕ) → r < 2 ^ 32 → test r 0x80000000 ≡ not (r >> 31 == 0)
sign_test r h = ground (arith, test_bit 31 r)

over-lt :
    (a b c : ℕ)
    → a < 2 ^ 32
    → b < 2 ^ 32
    → c < 2 ^ 32
    → bit_and (bit_xor a b) (bit_xor c b) < 2 ^ 32
over-lt a b c ha hb hc =
    bit_and-lt 32 (bit_xor a b) (bit_xor c b) (bit_xor-lt 32 a b ha hb) (bit_xor-lt 32 c b hc hb)

module _ (x y k old : ℕ) (hx : x < 2 ^ 32) (hy : y < 2 ^ 32) (hk : k < 2) where
  -- The flags as ADCS sets them, one by one, over the cleared status register.
  pub set_add_flags :
      let r = u32 (x + y + k) in
      IsAddWithCarry x y k old (
        or_if (test (bit_and (bit_xor x r) (bit_xor y r)) 0x80000000) flag_v (
          or_if
            (ltb 0xFFFFFFFF (x + y + k))
            flag_c
            (or_if (test r 0x80000000) flag_n (or_if (r == 0) flag_z (bit_and old nzcv_mask)))))
  set_add_flags =
      let r = u32 (x + y + k) in
      let r-lt : r < 2 ^ 32 = omega arith in
      of_bits-IsAddWithCarry x y k old (test r 0x80000000) (r == 0) (ltb 0xFFFFFFFF (x + y + k))
        (test (bit_and (bit_xor x r) (bit_xor y r)) 0x80000000) hx hy hk (set_nzcv _ _ _ _ old)
        (rw (sign_test r r-lt) (digit_top r r-lt)) refl (ground arith)
        (sign_test (bit_and (bit_xor x r) (bit_xor y r)) (over-lt x r y hx r-lt hy)
          ∙ add_overflow x y k hx hy hk)

  -- The flags as SBCS sets them, from the 64-bit difference.
  pub set_sub_flags :
      let r = sub32 (sub32 x y) (1 - k) in
      let wide = u64 (u64 (x + 0x10000000000000000 - y) + 0x10000000000000000 - (1 - k)) in
      IsAddWithCarry x (not32 y) k old (
        or_if (test (bit_and (bit_xor x y) (bit_xor x r)) 0x80000000) flag_v (
          or_if
            (wide >> 32 == 0)
            flag_c
            (or_if (test r 0x80000000) flag_n (or_if (r == 0) flag_z (bit_and old nzcv_mask)))))
  set_sub_flags =
      let r = u32 (x + not32 y + k) in
      let e : sub32 (sub32 x y) (1 - k) ≡ r = omega arith in
      let r-lt : r < 2 ^ 32 = omega arith in
      let wide = u64 (u64 (x + 0x10000000000000000 - y) + 0x10000000000000000 - (1 - k)) in
      let over-lt =
        bit_and-lt 32 (bit_xor x y) (bit_xor x r) (bit_xor-lt 32 x y hx hy)
          (bit_xor-lt 32 x r hx r-lt) in
      rw e (
        of_bits-IsAddWithCarry x (not32 y) k old (test r 0x80000000) (r == 0) (wide >> 32 == 0)
          (test (bit_and (bit_xor x y) (bit_xor x r)) 0x80000000) hx (omega arith) hk
          (set_nzcv _ _ _ _ old) (rw (sign_test r r-lt) (digit_top r r-lt)) refl (ground arith)
          (sign_test (bit_and (bit_xor x y) (bit_xor x r)) over-lt ∙ sub_overflow x y k hx hy hk))
