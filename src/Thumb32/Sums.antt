-- ===== src/Thumb32/Sums.antt =====
-- The additions, subtractions and comparisons of `t32_dp_exec` in src/thumb32.c against AddWithCarry.
use picoemu.Base.{
  ℕ, ◌+◌, ◌*◌, ◌/◌, ◌%◌, ◌^◌, ◌<◌, ◌≡◌, refl, ◌∙◌, ◌≢◌, bit_and, bit_xor, Bool, true, false, not,
  ◌&&◌, ◌==◌, ltb, if◌then◌else◌, ◌>>◌, u32, not32, arith,
}
use picoemu.Base.Int.{◌+ℤ◌}
use picoemu.Thumb.State.{Cpu, IsWord}
use picoemu.Thumb.Flags.{or_if, flag_c, put_carry, update_add_flags, update_sub_flags}
use picoemu.Thumb.Arith.{carry_in}
use picoemu.Thumb.Nzcv.{
  digit, digit-lt, flag_n?, flag_z?, flag_c?, flag_v?, replace_nzcv, sign_of_and_xor, put_carry_lem,
}
use picoemu.Thumb.AddWithCarry.{
  fits32, unsigned_sum, signed_sum, IsAddWithCarry, add_flags-IsAddWithCarry,
  sub_flags-IsAddWithCarry, set_sub_flags,
}
use picoemu.Thumb.Sums.{Adds}
use picoemu.Thumb32.Alu.{adc_flags, t32_dp_exec}

module _ (c : Cpu) (rn rd imm32 : ℕ) (carry : Bool) (v : IsWord c) (hi : imm32 < 2 ^ 32) where
  module _ (hr : rd < 15) where
    not_pc : (rd == 15) ≡ false
    not_pc = ground arith

    is_reg : ltb rd 16 ≡ true
    is_reg = ground arith

    add-Adds : Adds c (t32_dp_exec 0x8 true rn rd imm32 carry c) rd (c.r rn) imm32 0
    unfolding t32_dp_exec update_add_flags
    add-Adds =
        rw (not_pc, is_reg)
          (record {
            value = ground arith;
            others = λ j h. ground arith;
            flags = add_flags-IsAddWithCarry (c.r rn) imm32 c (v.regs rn) hi;
            rest = refl;
          })

    sub-Adds : Adds c (t32_dp_exec 0xD true rn rd imm32 carry c) rd (c.r rn) (not32 imm32) 1
    unfolding t32_dp_exec update_sub_flags
    sub-Adds =
        rw (not_pc, is_reg)
          (record {
            value = ground arith;
            others = λ j h. ground arith;
            flags = sub_flags-IsAddWithCarry (c.r rn) imm32 c (v.regs rn) hi;
            rest = refl;
          })

    rsb-Adds : Adds c (t32_dp_exec 0xE true rn rd imm32 carry c) rd imm32 (not32 (c.r rn)) 1
    unfolding t32_dp_exec update_sub_flags
    rsb-Adds =
        rw (not_pc, is_reg)
          (record {
            value = let h = v.regs rn in ground arith;
            others = λ j h. ground arith;
            flags = sub_flags-IsAddWithCarry imm32 (c.r rn) c hi (v.regs rn);
            rest = refl;
          })

    carry-lt : carry_in c < 2
    carry-lt = ground arith

    sbc-Adds :
        Adds c (t32_dp_exec 0xB true rn rd imm32 carry c) rd (c.r rn) (not32 imm32) (carry_in c)
    unfolding t32_dp_exec
    sbc-Adds =
        let k = carry-lt in
        rw (not_pc, is_reg)
          (record {
            value = let h = v.regs rn in ground arith;
            others = λ j h. ground arith;
            flags = set_sub_flags (c.r rn) imm32 (carry_in c) c.xpsr (v.regs rn) hi k;
            rest = refl;
          })

-- V of an addition whose second operand has taken the carry in before its sign is read.
abbrev pub adc_overflow : ℕ → ℕ → ℕ → Bool
adc_overflow x y k =
    let fits = fits32 (signed_sum x y k) in if (k == 1) && (y == 0x7FFFFFFF) then fits else not fits

adc_overflow_lem :
    (x y k : ℕ)
    → x < 2 ^ 32
    → y < 2 ^ 32
    → k < 2
    → let r = u32 (x + y + k) in
      not (bit_and (bit_xor x r) (bit_xor (u32 (y + k)) r) >> 31 == 0) ≡ adc_overflow x y k
unfolding ◌+ℤ◌
adc_overflow_lem x y k hx hy hk =
    ground (arith, sign_of_and_xor x (u32 (x + y + k)) (u32 (y + k)) (u32 (x + y + k)))

-- `xpsr &= ~FLAG_C; if (b) xpsr |= FLAG_C;`
carry_again :
    (b : Bool) (d : Cpu)
    → d.xpsr < 2 ^ 32
    → or_if b flag_c (bit_and d.xpsr (not32 flag_c))
      ≡ d.xpsr / 2 ^ 30 * 2 ^ 30 + digit b * 2 ^ 29 + d.xpsr % 2 ^ 29
carry_again false d h = put_carry_lem false d h
carry_again true d h =
    let e = put_carry_lem false d h in
    let word : (put_carry false d).xpsr < 2 ^ 32 = omega arith in
    put_carry_lem true (put_carry false d) word ∙ omega arith

-- The flags of `new` are those of the sum but for V, and its low bits are those of `old`.
pub record IsAdc (x y k old new : ℕ) : Type 0 where
  pub negative : flag_n? new ≡ u32 (unsigned_sum x y k) / 2 ^ 31
  pub is_zero : flag_z? new ≡ digit (u32 (unsigned_sum x y k) == 0)
  pub carry_out : flag_c? new ≡ unsigned_sum x y k / 2 ^ 32
  pub overflow : flag_v? new ≡ digit (adc_overflow x y k)
  pub kept : new % 2 ^ 28 ≡ old % 2 ^ 28

of_digits-IsAdc :
    (x y k old mid : ℕ) (n z v b : Bool) {new c : ℕ}
    → c < 2
    → mid ≡ (8 * digit n + 4 * digit z + 2 * c + digit v) * 2 ^ 28 + old % 2 ^ 28
    → new ≡ mid / 2 ^ 30 * 2 ^ 30 + digit b * 2 ^ 29 + mid % 2 ^ 29
    → digit n ≡ u32 (unsigned_sum x y k) / 2 ^ 31
    → z ≡ (u32 (unsigned_sum x y k) == 0)
    → digit b ≡ unsigned_sum x y k / 2 ^ 32
    → v ≡ adc_overflow x y k
    → IsAdc x y k old new
of_digits-IsAdc x y k old mid n z v b hc e f en ez eb ev =
    let dn : digit n < 2 = digit-lt n in
    let dz : digit z < 2 = digit-lt z in
    let db : digit b < 2 = digit-lt b in
    let dv : digit v < 2 = digit-lt v in
    record {
      negative = omega arith;
      is_zero = rw (← ez) (omega arith);
      carry_out = omega arith;
      overflow = rw (← ev) (omega arith);
      kept = omega arith;
    }

digit_sign : (r : ℕ) → r < 2 ^ 32 → digit (not (r >> 31 == 0)) ≡ r / 2 ^ 31
digit_sign r h = ground arith

module _ (x y k : ℕ) (c : Cpu) (hx : x < 2 ^ 32) (hy : y < 2 ^ 32) (hk : k < 2) where
  abbrev added : Cpu
  added = update_add_flags x (u32 (y + k)) (u32 (x + y + k)) c

  abbrev over : Bool
  over =
      not
        (bit_and (bit_xor x (u32 (x + y + k))) (bit_xor (u32 (y + k)) (u32 (x + y + k))) >> 31 == 0)

  added_lem :
      added.xpsr
      ≡ (8 * digit (not (u32 (x + y + k) >> 31 == 0))
            + 4 * digit (u32 (x + y + k) == 0)
            + 2 * digit (ltb 0xFFFFFFFF (x + u32 (y + k)))
            + digit over)
          * 2 ^ 28
        + c.xpsr % 2 ^ 28
  unfolding update_add_flags
  added_lem = replace_nzcv _ _ _ _ c.xpsr

  adc_flags-IsAdc : IsAdc x y k c.xpsr (adc_flags x y k c).xpsr
  adc_flags-IsAdc =
      let e = added_lem in
      let hc = digit-lt (ltb 0xFFFFFFFF (x + u32 (y + k))) in
      let word : added.xpsr < 2 ^ 32 = omega (
        arith,
        digit-lt (not (u32 (x + y + k) >> 31 == 0)),
        digit-lt (u32 (x + y + k) == 0),
        hc,
        digit-lt over,
        e,
      ) in
      of_digits-IsAdc x y k c.xpsr added.xpsr (not (u32 (x + y + k) >> 31 == 0))
        (u32 (x + y + k) == 0) over (ltb 0xFFFFFFFF (x + y + k)) hc e
        (carry_again (ltb 0xFFFFFFFF (x + y + k)) added word)
        (digit_sign (u32 (x + y + k)) (omega arith)) refl (ground arith)
        (adc_overflow_lem x y k hx hy hk)

-- `after` has the registers of `before`, and the flags of AddWithCarry(x, y, carry).
pub record SetsFlags (before after : Cpu) (x y carry : ℕ) : Type 0 where
  pub registers : (j : ℕ) → after.r j ≡ before.r j
  pub flags : IsAddWithCarry x y carry before.xpsr after.xpsr

-- ADC stores the sum; its flags are the sum's but for V.
pub record AdcAdds (before after : Cpu) (rd x y k : ℕ) : Type 0 where
  pub value : after.r rd ≡ u32 (unsigned_sum x y k)
  pub others : (j : ℕ) → rd ≢ j → after.r j ≡ before.r j
  pub flags : IsAdc x y k before.xpsr after.xpsr

-- From a state of 32-bit words, with any 32-bit second operand and a destination below the program
-- counter, the flag-setting operations 8, 13, 14 and 11 of `t32_dp_exec` store AddWithCarry(x, y, 0),
-- AddWithCarry(x, NOT y, 1), AddWithCarry(y, NOT x, 1) and AddWithCarry(x, NOT y, C) of the first
-- register x and the second operand y, set N, Z, C and V to that sum's and change no other register
-- and no lower status bit; 10 does so with AddWithCarry(x, y, C), except that V is inverted when C is
-- set and y is 0x7FFFFFFF. With the program counter as destination, 8 and 13 set the same flags and
-- change no register.
pub t32_dp_exec-Adds :
    (c : Cpu) (rn rd imm32 : ℕ) (carry : Bool)
    → IsWord c
    → imm32 < 2 ^ 32
    → rd < 15
    → let x = c.r rn in
      let k = carry_in c in
      Adds c (t32_dp_exec 0x8 true rn rd imm32 carry c) rd x imm32 0
      × Adds c (t32_dp_exec 0xD true rn rd imm32 carry c) rd x (not32 imm32) 1
      × Adds c (t32_dp_exec 0xE true rn rd imm32 carry c) rd imm32 (not32 x) 1
      × Adds c (t32_dp_exec 0xB true rn rd imm32 carry c) rd x (not32 imm32) k
      × AdcAdds c (t32_dp_exec 0xA true rn rd imm32 carry c) rd x imm32 k
      × SetsFlags c (t32_dp_exec 0x8 true rn 15 imm32 carry c) x imm32 0
      × SetsFlags c (t32_dp_exec 0xD true rn 15 imm32 carry c) x (not32 imm32) 1
unfolding t32_dp_exec update_add_flags update_sub_flags
t32_dp_exec-Adds c rn rd imm32 carry v hi hr =
    let x-lt = v.regs rn in
    (
      add-Adds c rn rd imm32 carry v hi hr,
      sub-Adds c rn rd imm32 carry v hi hr,
      rsb-Adds c rn rd imm32 carry v hi hr,
      sbc-Adds c rn rd imm32 carry v hi hr,
      rw (not_pc c rn rd imm32 carry v hi hr, is_reg c rn rd imm32 carry v hi hr)
          (record {
            value = ground arith;
            others = λ j h. ground arith;
            flags =
                adc_flags-IsAdc (c.r rn) imm32 (carry_in c) c x-lt hi
                  (carry-lt c rn rd imm32 carry v hi hr);
          }),
      record { registers = λ j. refl; flags = add_flags-IsAddWithCarry (c.r rn) imm32 c x-lt hi },
      record { registers = λ j. refl; flags = sub_flags-IsAddWithCarry (c.r rn) imm32 c x-lt hi },
    )
