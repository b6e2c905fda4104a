-- ===== src/Thumb/Sums.antt =====
-- The handlers of src/instructions.c that add, subtract and compare, each as AddWithCarry on the
-- operands that its encoding names.
use picoemu.Base.{ℕ, ◌+◌, ◌/◌, ◌^◌, ◌<◌, ◌≡◌, refl, ◌≢◌, bit_and, u32, sub32, not32, arith}
use picoemu.Base.Bits.{bit_and_mask}
use picoemu.Thumb.State.{Cpu, set_reg, IsWord}
use picoemu.Thumb.Flags.{bits, update_add_flags, update_sub_flags}
use picoemu.Thumb.Nzcv.{flag_c?}
use picoemu.Thumb.Arith.{
  high_dst, keep_flags, carry_in, instr_adds_imm3, instr_adds_imm8, instr_adds_reg_reg,
  instr_subs_imm3, instr_subs_imm8, instr_sub_reg_reg, instr_rsbs, instr_adcs, instr_sbcs,
  instr_cmp_imm8, instr_cmp_reg_reg, instr_cmp_alu, instr_cmn_reg,
}
use picoemu.Thumb.AddWithCarry.{
  unsigned_sum, IsAddWithCarry, add_flags-IsAddWithCarry, sub_flags-IsAddWithCarry, carry_in_lem,
  set_add_flags, set_sub_flags,
}

-- `after` is `before` with AddWithCarry(x, y, carry) in register `rd` and its flags set: `rest` says
-- that the fields but the registers and the status are the old ones.
pub record Adds (before after : Cpu) (rd x y carry : ℕ) : Type 0 where
  pub value : after.r rd ≡ u32 (unsigned_sum x y carry)
  pub others : (j : ℕ) → rd ≢ j → after.r j ≡ before.r j
  pub flags : IsAddWithCarry x y carry before.xpsr after.xpsr
  pub rest : after ≡ record before { r = after.r; xpsr = after.xpsr }

-- `after` is `before` with the flags of AddWithCarry(x, y, carry) alone.
pub record Compares (before after : Cpu) (x y carry : ℕ) : Type 0 where
  pub kept : (j : ℕ) → after.r j ≡ before.r j
  pub flags : IsAddWithCarry x y carry before.xpsr after.xpsr
  pub sets_flags : after.it_suppress ≡ 0

imm3-lt : (instr : ℕ) → bits instr 6 0x07 < 2 ^ 32
imm3-lt instr = rw (bit_and_mask 3 (instr / 2 ^ 6)) (omega arith)

imm8-lt : (instr : ℕ) → bit_and instr 0xFF < 2 ^ 32
imm8-lt instr = rw (bit_and_mask 8 instr) (omega arith)

module _ (instr : ℕ) (c : Cpu) (v : IsWord c) where
  carry-lt : carry_in c < 2
  carry-lt = ground arith

  adcs-Adds :
      Adds c
        (instr_adcs instr c)
        (bit_and instr 0x07)
        (c.r (bit_and instr 0x07))
        (c.r (bits instr 3 0x07))
        (carry_in c)
  unfolding instr_adcs
  adcs-Adds = record {
    value = ground arith;
    others = λ j h. ground arith;
    flags = set_add_flags _ _ (carry_in c) c.xpsr (v.regs _) (v.regs _) carry-lt;
    rest = refl;
  }

  sbcs-Adds :
      Adds c
        (instr_sbcs instr c)
        (bit_and instr 0x07)
        (c.r (bit_and instr 0x07))
        (not32 (c.r (bits instr 3 0x07)))
        (carry_in c)
  unfolding instr_sbcs
  sbcs-Adds =
      let hx = v.regs (bit_and instr 0x07) in
      let hy = v.regs (bits instr 3 0x07) in
      let hk = carry-lt in
      record {
        value = ground arith;
        others = λ j h. ground arith;
        flags = set_sub_flags _ _ (carry_in c) c.xpsr hx hy hk;
        rest = refl;
      }

module _ (c : Cpu) (rd x y : ℕ) (hx : x < 2 ^ 32) (hy : y < 2 ^ 32) where
  added : let r = u32 (x + y) in Adds c (update_add_flags x y r (set_reg rd r c)) rd x y 0
  unfolding update_add_flags
  added = record {
    value = ground arith;
    others = λ j h. ground arith;
    flags = add_flags-IsAddWithCarry x y (set_reg rd (u32 (x + y)) c) hx hy;
    rest = refl;
  }

  subtracted :
      let r = sub32 x y in Adds c (update_sub_flags x y r (set_reg rd r c)) rd x (not32 y) 1
  unfolding update_sub_flags
  subtracted = record {
    value = ground arith;
    others = λ j h. ground arith;
    flags = sub_flags-IsAddWithCarry x y (set_reg rd (sub32 x y) c) hx hy;
    rest = refl;
  }

  compared : Compares c (update_sub_flags x y (sub32 x y) (keep_flags c)) x (not32 y) 1
  unfolding update_sub_flags
  compared = record {
    kept = λ j. refl;
    flags = sub_flags-IsAddWithCarry x y (keep_flags c) hx hy;
    sets_flags = refl;
  }

  compared_sum : Compares c (update_add_flags x y (u32 (x + y)) (keep_flags c)) x y 0
  unfolding update_add_flags
  compared_sum = record {
    kept = λ j. refl;
    flags = add_flags-IsAddWithCarry x y (keep_flags c) hx hy;
    sets_flags = refl;
  }

-- Every 16-bit instruction and valid state: ADDS with a register, a 3-bit and an 8-bit constant
-- and ADCS store AddWithCarry of the operands that their encodings name (ADCS with the old carry
-- flag), set N, Z, C and V to that sum's, and change no other register, no other status bit and no
-- other field of the core.
pub additions-Adds :
    (instr : ℕ) (c : Cpu)
    → IsWord c
    → let low = bit_and instr 0x07 in
      let mid = bits instr 3 0x07 in
      let top = bits instr 8 0x07 in
      Adds c (instr_adds_reg_reg instr c) low (c.r mid) (c.r (bits instr 6 0x07)) 0
      × Adds c (instr_adds_imm3 instr c) low (c.r mid) (bits instr 6 0x07) 0
      × Adds c (instr_adds_imm8 instr c) top (c.r top) (bit_and instr 0xFF) 0
      × Adds c (instr_adcs instr c) low (c.r low) (c.r mid) (flag_c? c.xpsr)
unfolding instr_adds_reg_reg instr_adds_imm3 instr_adds_imm8
additions-Adds instr c v = (
  added c _ _ _ (v.regs _) (v.regs _),
  added c _ _ _ (v.regs _) (imm3-lt instr),
  added c _ _ _ (v.regs _) (imm8-lt instr),
  rw (← carry_in_lem c) (adcs-Adds instr c v),
)

-- Every 16-bit instruction and valid state: SUBS with a register, a 3-bit and an 8-bit constant,
-- RSBS and SBCS store AddWithCarry(x, NOT y, 1) of their operands (SBCS with the old carry flag in
-- place of 1), set N, Z, C and V to that sum's, and change no other register, no other status bit
-- and no other field of the core.
pub subtractions-Adds :
    (instr : ℕ) (c : Cpu)
    → IsWord c
    → let low = bit_and instr 0x07 in
      let mid = bits instr 3 0x07 in
      let top = bits instr 8 0x07 in
      Adds c (instr_sub_reg_reg instr c) low (c.r mid) (not32 (c.r (bits instr 6 0x07))) 1
      × Adds c (instr_subs_imm3 instr c) low (c.r mid) (not32 (bits instr 6 0x07)) 1
      × Adds c (instr_subs_imm8 instr c) top (c.r top) (not32 (bit_and instr 0xFF)) 1
      × Adds c (instr_rsbs instr c) low 0 (not32 (c.r mid)) 1
      × Adds c (instr_sbcs instr c) low (c.r low) (not32 (c.r mid)) (flag_c? c.xpsr)
unfolding instr_sub_reg_reg instr_subs_imm3 instr_subs_imm8 instr_rsbs
subtractions-Adds instr c v = (
  subtracted c _ _ _ (v.regs _) (v.regs _),
  subtracted c _ _ _ (v.regs _) (imm3-lt instr),
  subtracted c _ _ _ (v.regs _) (imm8-lt instr),
  subtracted c _ _ _ (omega arith) (v.regs _),
  rw (← carry_in_lem c) (sbcs-Adds instr c v),
)

-- Every 16-bit instruction and valid state: the three forms of CMP set the flags of
-- AddWithCarry(x, NOT y, 1) and CMN those of AddWithCarry(x, y, 0) of their operands; all four
-- leave every register and clear `it_suppress`, so that an IT block keeps their flags.
pub comparisons-Compares :
    (instr : ℕ) (c : Cpu)
    → IsWord c
    → let low = bit_and instr 0x07 in
      let mid = bits instr 3 0x07 in
      Compares c (instr_cmp_imm8 instr c) (c.r (bits instr 8 0x07)) (not32 (bit_and instr 0xFF)) 1
      × Compares c
          (instr_cmp_reg_reg instr c)
          (c.r (high_dst instr))
          (not32 (c.r (bits instr 3 0x0F)))
          1
      × Compares c (instr_cmp_alu instr c) (c.r low) (not32 (c.r mid)) 1
      × Compares c (instr_cmn_reg instr c) (c.r low) (c.r mid) 0
unfolding instr_cmp_imm8 instr_cmp_reg_reg instr_cmp_alu instr_cmn_reg
comparisons-Compares instr c v = (
  compared c 0 _ _ (v.regs _) (imm8-lt instr),
  compared c 0 _ _ (v.regs _) (v.regs _),
  compared c 0 _ _ (v.regs _) (v.regs _),
  compared_sum c 0 _ _ (v.regs _) (v.regs _),
)
