-- ===== src/Thumb/Conditions.antt =====
-- The condition codes of src/instructions.c after a comparison: what each conditional branch asks
-- of the two compared registers.
use picoemu.Base.{
  ℕ, ◌+◌, ◌*◌, ◌/◌, ◌^◌, ◌<◌, ◌≡◌, refl, bit_and, Bool, true, false, not, ◌&&◌, ◌||◌, ◌==◌, ltb,
  leb, if◌then◌else◌, u32, sub32, not32, arith,
}
use picoemu.Base.Int.{ℤ, pos_part, neg_part, ◌+ℤ◌, signed32}
use picoemu.Thumb.State.{Cpu, set_pc, IsWord}
use picoemu.Thumb.Flags.{
  bits, sign_extend_8, test, flag_n, flag_z, flag_c, flag_v, update_sub_flags,
}
use picoemu.Thumb.Arith.{keep_flags, instr_cmp_alu}
use picoemu.Thumb.Branch.{take_branch, instr_bcond}
use picoemu.Thumb.Nzcv.{test_bit}
use picoemu.Thumb.AddWithCarry.{signed_sum, fits32, sub_flags-IsAddWithCarry}

-- The order of integers as a test.
abbrev pub leb_ℤ : ℤ → ℤ → Bool
leb_ℤ a b = leb (pos_part a + neg_part b) (pos_part b + neg_part a)

-- What each of the ten conditions decides of the first and second number compared.
abbrev pub decides : ℕ → ℕ → ℕ → Bool
decides cond a b =
    if cond == 0x0
    then a == b
    else if cond == 0x1
    then not (a == b)
    else if cond == 0x2
    then leb b a
    else if cond == 0x3
    then ltb a b
    else if cond == 0x8
    then ltb b a
    else if cond == 0x9
    then leb a b
    else if cond == 0xA
    then leb_ℤ (signed32 b) (signed32 a)
    else if cond == 0xB
    then not (leb_ℤ (signed32 b) (signed32 a))
    else if cond == 0xC
    then not (leb_ℤ (signed32 a) (signed32 b))
    else leb_ℤ (signed32 a) (signed32 b)

-- The condition codes that follow a comparison: not MI, PL, VS, VC, nor the two that are no code.
abbrev pub compares : ℕ → Bool
compares cond = ltb cond 0x4 || (leb 0x8 cond && leb cond 0xD)

-- The four flags after a comparison, as tests of the operands.
module _ (a b : ℕ) (c : Cpu) (ha : a < 2 ^ 32) (hb : b < 2 ^ 32) where
  abbrev after : ℕ
  after = (update_sub_flags a b (sub32 a b) c).xpsr

  n_after : test after flag_n ≡ (sub32 a b / 2 ^ 31 == 1)
  n_after =
      let f = sub_flags-IsAddWithCarry a b c ha hb in ground (arith, test_bit 31 after, f.negative)

  z_after : test after flag_z ≡ (a == b)
  z_after =
      let f = sub_flags-IsAddWithCarry a b c ha hb in ground (arith, test_bit 30 after, f.is_zero)

  c_after : test after flag_c ≡ leb b a
  c_after =
      let f = sub_flags-IsAddWithCarry a b c ha hb in ground (arith, test_bit 29 after, f.carry_out)

  v_after : test after flag_v ≡ not (fits32 (signed_sum a (not32 b) 1))
  v_after =
      let f = sub_flags-IsAddWithCarry a b c ha hb in ground (arith, test_bit 28 after, f.overflow)

  n_eq_v_after :
      (if test after flag_n then test after flag_v else not (test after flag_v))
      ≡ leb_ℤ (signed32 b) (signed32 a)
  unfolding ◌+ℤ◌
  n_eq_v_after = rw (n_after, v_after) (ground arith)

  take_branch-decides :
      (cond : ℕ) → compares cond ≡ true → take_branch cond after ≡ decides cond a b
  unfolding take_branch
  take_branch-decides cond h = ground (arith, z_after, c_after, n_eq_v_after)

taken_or_not :
    (b : Bool) (c : Cpu) (x y : ℕ)
    → (if b then set_pc x c else set_pc y c).r 15 ≡ (if b then x else y)
taken_or_not true c x y = refl
taken_or_not false c x y = refl

-- For every CMP of two low registers followed by a conditional branch on EQ, NE, CS, CC, HI, LS,
-- GE, LT, GT or LE, from a valid state: the program counter becomes the branch target when the two
-- registers stand in that relation (CS, CC, HI and LS as unsigned numbers, GE, LT, GT and LE as
-- the integers that their bits stand for), and the next instruction otherwise.
pub bcond-cmp :
    (cmp branch : ℕ) (c : Cpu)
    → IsWord c
    → compares (bits branch 8 0x0F) ≡ true
    → let a = c.r (bit_and cmp 0x07) in
      let b = c.r (bits cmp 3 0x07) in
      let offset = sign_extend_8 (bit_and branch 0xFF) in
      (instr_bcond branch (instr_cmp_alu cmp c)).r 15 ≡ (
        if decides (bits branch 8 0x0F) a b
        then u32 (c.r 15 + u32 (4 + u32 (offset * 2)))
        else u32 (c.r 15 + 2))
unfolding instr_bcond instr_cmp_alu
bcond-cmp cmp branch c v h =
    let a = c.r (bit_and cmp 0x07) in
    let b = c.r (bits cmp 3 0x07) in
    rw (take_branch-decides a b (keep_flags c) (v.regs _) (v.regs _) (bits branch 8 0x0F) h) (
      unfold update_sub_flags in
      taken_or_not (decides (bits branch 8 0x0F) a b) (instr_cmp_alu cmp c) _ _)
