-- ===== src/Thumb32/Constants.antt =====
-- MOVW and MOVT of src/thumb32.c: how they are encoded, and the constant that they leave.
use picoemu.Base.{
  ℕ, ◌+◌, ◌*◌, ◌/◌, ◌%◌, ◌^◌, ◌<◌, ◌≡◌, refl, ap, ◌∙◌, ◌≢◌, bit_and, bit_or, Bool, true, false, not,
  ◌&&◌, ◌==◌, ◌>>◌, u32, ==_iff, arith,
}
use picoemu.Base.Bits.{
  bit_and_mask, bit_or-sum, bit_or_high, zero-bit_or, holds_below, holds_below-at,
}
use picoemu.Base.Scan.{bit_and-le}
use picoemu.Thumb.State.{set_reg, set_pc, Machine, on_cpu}
use picoemu.Thumb.Flags.{bits, test}
use picoemu.Thumb.Nzcv.{test_bit}
use picoemu.Thumb32.Alu.{imm16_of, t32_dp_plain_imm}
use picoemu.Thumb32.Decode.{free_dsp, free_products, free_fields, IsFree, IsFree-t32_misc}
use picoemu.Thumb32.Misc.{matches}
use picoemu.Thumb32.Step.{StepEnv, step_group_f0, thumb32_step}

-- The first halfword of MOVW (0xF240) and MOVT (0xF2C0) with a 16-bit constant, and the second.
abbrev pub constant_upper : ℕ → ℕ → ℕ
constant_upper opcode imm16 = opcode + imm16 / 2 ^ 11 % 2 * 2 ^ 10 + imm16 / 2 ^ 12

abbrev pub constant_lower : ℕ → ℕ → ℕ
constant_lower rd imm16 = imm16 / 2 ^ 8 % 8 * 2 ^ 12 + rd * 2 ^ 8 + imm16 % 2 ^ 8

-- The 32 first halfwords, by the top five bits of the constant.
abbrev high_upper : ℕ → ℕ → ℕ
high_upper opcode five = opcode + five % 2 * 2 ^ 10 + five / 2

-- What the decoder sees of the first halfword.
abbrev is_constant : ℕ → ℕ → ℕ → Bool
is_constant opcode op5 five =
    let upper = high_upper opcode five in
    free_dsp upper
    && free_products upper
    && free_fields upper
    && (upper >> 11 == 0x1E)
    && not (matches upper 0xEF00 0xEE00)
    && not (matches upper 0xEF00 0xED00)
    && test upper 0x0200
    && (bits upper 4 0x1F == op5)
    && (bit_and upper 0xF == five / 2)
    && (bits upper 10 1 == five % 2)

movw_all : holds_below (is_constant 0xF240 0x04) 32 ≡ true
unfolding holds_below
movw_all = refl

movt_all : holds_below (is_constant 0xF2C0 0x0C) 32 ≡ true
unfolding holds_below
movt_all = refl

-- What holds of a first halfword with `op5` and the five bits.
record Decodes (upper op5 five : ℕ) : Type 0 where
  free : IsFree upper
  group : upper >> 11 ≡ 0x1E
  no_fpu : matches upper 0xEF00 0xEE00 ≡ false
  no_fpu' : matches upper 0xEF00 0xED00 ≡ false
  plain : test upper 0x0200 ≡ true
  operation : bits upper 4 0x1F ≡ op5
  low : bit_and upper 0xF ≡ five / 2
  i : bits upper 10 1 ≡ five % 2

is_constant-Decodes :
    (opcode op5 five : ℕ)
    → is_constant opcode op5 five ≡ true
    → Decodes (high_upper opcode five) op5 five
is_constant-Decodes opcode op5 five h = record {
  free = record { dsp = ground arith; products = ground arith; fields = ground arith };
  group = ground arith;
  no_fpu = ground arith;
  no_fpu' = ground arith;
  plain = ground arith;
  operation = ground arith;
  low = ground arith;
  i = ground arith;
}

constant_upper_five :
    (opcode imm16 : ℕ)
    → imm16 < 2 ^ 16
    → constant_upper opcode imm16 ≡ high_upper opcode (imm16 / 2 ^ 11)
constant_upper_five opcode imm16 h = omega arith

-- The fields of the second halfword.
module _ (rd imm16 : ℕ) (hr : rd < 16) where
  imm3_field : bits (constant_lower rd imm16) 12 7 ≡ imm16 / 2 ^ 8 % 8
  imm3_field = rw (bit_and_mask 3 (constant_lower rd imm16 / 2 ^ 12)) (omega arith)

  rd_field : bits (constant_lower rd imm16) 8 0xF ≡ rd
  rd_field = rw (bit_and_mask 4 (constant_lower rd imm16 / 2 ^ 8)) (omega arith)

  imm8_field : bit_and (constant_lower rd imm16) 0xFF ≡ imm16 % 2 ^ 8
  imm8_field = rw (bit_and_mask 8 (constant_lower rd imm16)) (omega arith)

  no_call : matches (constant_lower rd imm16) 0xD000 0xD000 ≡ false
  no_call = ground (arith, bit_and-le (constant_lower rd imm16) 0xD000)

  no_branch : test (constant_lower rd imm16) 0x8000 ≡ false
  no_branch = ground (arith, test_bit 15 (constant_lower rd imm16))

joined :
    (imm16 : ℕ)
    → imm16 < 2 ^ 16
    → let five = imm16 / 2 ^ 11 in
      bit_or
        (bit_or (bit_or (five / 2 * 2 ^ 12) (five % 2 * 2 ^ 11)) (imm16 / 2 ^ 8 % 8 * 2 ^ 8))
        (imm16 % 2 ^ 8)
      ≡ imm16
joined imm16 h =
    let a = imm16 / 2 ^ 11 / 2 in
    let b = imm16 / 2 ^ 11 % 2 in
    let d = imm16 / 2 ^ 8 % 8 in
    let e1 = bit_or-sum 12 a (a * 2 ^ 12) (b * 2 ^ 11) refl (omega arith) in
    let e2 =
      bit_or-sum 11 (2 * a + b) (a * 2 ^ 12 + b * 2 ^ 11) (d * 2 ^ 8) (omega arith) (omega arith) in
    let e3 =
      bit_or-sum 8 (imm16 / 2 ^ 8) (a * 2 ^ 12 + b * 2 ^ 11 + d * 2 ^ 8) (imm16 % 2 ^ 8)
        (omega arith) (omega arith) in
    rw (e1, e2, e3) (omega arith)

imm16_lem :
    (opcode op5 rd imm16 : ℕ)
    → rd < 16
    → imm16 < 2 ^ 16
    → Decodes (constant_upper opcode imm16) op5 (imm16 / 2 ^ 11)
    → imm16_of (constant_upper opcode imm16) (constant_lower rd imm16) ≡ imm16
imm16_lem opcode op5 rd imm16 hr h d =
    rw (d.low, d.i, imm3_field rd imm16 hr, imm8_field rd imm16 hr) (joined imm16 h)

-- The second register file of a pair of instructions, and the constants.
module _ {W : Type 0} (s : StepEnv W) (rd imm16 : ℕ) (hr : rd < 16) (h : imm16 < 2 ^ 16) where
  group_step :
      (pc opcode op5 : ℕ) (m : Machine W)
      → Decodes (constant_upper opcode imm16) op5 (imm16 / 2 ^ 11)
      → let upper = constant_upper opcode imm16 in
        let lower = constant_lower rd imm16 in
        step_group_f0 s pc upper lower m ≡ t32_dp_plain_imm s.env pc upper lower m
  unfolding step_group_f0
  group_step pc opcode op5 m d = rw (
    IsFree-t32_misc (constant_upper opcode imm16) s.wide (constant_lower rd imm16) m.cpu d.free,
    d.no_fpu,
    d.no_fpu',
    no_call rd imm16 hr,
    no_branch rd imm16 hr,
    d.plain,
  )

  -- A step of such an instruction is the plain constant operation.
  plain_step :
      (pc opcode op5 : ℕ) (m : Machine W)
      → Decodes (constant_upper opcode imm16) op5 (imm16 / 2 ^ 11)
      → let upper = constant_upper opcode imm16 in
        let lower = constant_lower rd imm16 in
        thumb32_step s pc upper lower m
        ≡ (true, t32_dp_plain_imm s.env pc upper lower (on_cpu (set_pc (u32 (pc + 4))) m))
  unfolding thumb32_step
  plain_step pc opcode op5 m d = rw d.group (
      ap (λ (t : Machine W). (true, t))
        (group_step pc opcode op5 (on_cpu (set_pc (u32 (pc + 4))) m) d))

  decodes :
      (opcode op5 : ℕ)
      → holds_below (is_constant opcode op5) 32 ≡ true
      → Decodes (constant_upper opcode imm16) op5 (imm16 / 2 ^ 11)
  decodes opcode op5 all = rw (constant_upper_five opcode imm16 h) (
      is_constant-Decodes opcode op5 (imm16 / 2 ^ 11)
        (holds_below-at (is_constant opcode op5) 32 (imm16 / 2 ^ 11) all (omega arith)))

  movw :
      (pc : ℕ) (m : Machine W)
      → thumb32_step s pc (constant_upper 0xF240 imm16) (constant_lower rd imm16) m
        ≡ (true, on_cpu (set_reg rd imm16) (on_cpu (set_pc (u32 (pc + 4))) m))
  unfolding t32_dp_plain_imm
  movw pc m =
      let d = decodes 0xF240 0x04 movw_all in
      plain_step pc 0xF240 0x04 m d
      ∙ rw (d.operation, imm16_lem 0xF240 0x04 rd imm16 hr h d, rd_field rd imm16 hr)

  movt :
      (pc : ℕ) (m : Machine W)
      → thumb32_step s pc (constant_upper 0xF2C0 imm16) (constant_lower rd imm16) m ≡ (
        true,
        on_cpu
            (λ c. set_reg rd (bit_or (bit_and (c.r rd) 0xFFFF) (imm16 * 2 ^ 16)) c)
            (on_cpu (set_pc (u32 (pc + 4))) m),
      )
  unfolding t32_dp_plain_imm
  movt pc m =
      let d = decodes 0xF2C0 0x0C movt_all in
      plain_step pc 0xF2C0 0x0C m d
      ∙ rw (d.operation, imm16_lem 0xF2C0 0x0C rd imm16 hr h d, rd_field rd imm16 hr)

halves : (value : ℕ) → bit_or (value % 2 ^ 16) (value / 2 ^ 16 * 2 ^ 16) ≡ value
halves value =
    let small : value % 2 ^ 16 / 2 ^ 16 ≡ 0 = omega arith in
    rw (bit_or_high 16 (value % 2 ^ 16) (value / 2 ^ 16), small, zero-bit_or (value / 2 ^ 16))
      (omega arith)

-- The step of MOVW with the low half of any 32-bit value, then, at any address, the step of MOVT with
-- its high half and the same destination register, which is not the program counter: both are
-- recognised, the register holds the value, the program counter has moved past the second
-- instruction, and every other register, the status and the memory are as they were.
pub movt-movw :
    {W : Type 0} (s : StepEnv W) (pc pc' rd value : ℕ) (m : Machine W)
    → rd < 15
    → value < 2 ^ 32
    → let low = value % 2 ^ 16 in
      let high = value / 2 ^ 16 in
      let first = thumb32_step s pc (constant_upper 0xF240 low) (constant_lower rd low) m in
      let out = thumb32_step s pc' (constant_upper 0xF2C0 high) (constant_lower rd high) first.1 in
      (first.0 ≡ true)
      × (out.0 ≡ true)
      × (out.1.cpu.r rd ≡ value)
      × (out.1.cpu.r 15 ≡ u32 (pc' + 4))
      × ((j : ℕ) → j < 15 → j ≢ rd → out.1.cpu.r j ≡ m.cpu.r j)
      × (out.1.cpu.xpsr ≡ m.cpu.xpsr)
      × (out.1.world ≡ m.world)
movt-movw s pc pc' rd value m hr hv =
    let e1 = movw s rd (value % 2 ^ 16) (omega arith) (omega arith) pc m in
    let at = on_cpu (set_reg rd (value % 2 ^ 16)) (on_cpu (set_pc (u32 (pc + 4))) m) in
    let e2 = movt s rd (value / 2 ^ 16) (omega arith) (omega arith) pc' at in
    let self : (rd == rd) ≡ true = (==_iff rd rd).1 refl in
    let apart : (15 == rd) ≡ false = ground arith in
    let masked : value % 2 ^ 16 % 2 ^ 16 ≡ value % 2 ^ 16 = omega arith in
    let joint : bit_or (bit_and (value % 2 ^ 16) 0xFFFF) (value / 2 ^ 16 * 2 ^ 16) ≡ value =
      rw (bit_and_mask 16 (value % 2 ^ 16), masked) (halves value) in
    rw (e1, e2)
      (refl, refl, rw (self, apart, joint), ground arith, (λ j hj ne. ground arith), refl, refl)
