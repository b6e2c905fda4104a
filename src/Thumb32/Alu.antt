-- ===== src/Thumb32/Alu.antt =====
-- The data processing instructions of src/thumb32.c: the operation that the shifted-register and the
-- constant forms share, and the plain constants.
use picoemu.Base.{
  ℕ, ◌+◌, ◌-◌, bit_and, bit_or, bit_xor, Bool, true, not, ◌&&◌, ◌==◌, ltb, if◌then◌else◌, ◌<<◌,
  ◌>>◌, u32, u64, sub32, not32,
}
use picoemu.Thumb.State.{Cpu, set_reg, set_pc, Machine, Env, on_cpu}
use picoemu.Thumb.Flags.{
  bits, test, or_if, flag_n, flag_z, flag_c, flag_v, nzcv_mask, put_carry, update_nz_flags,
  update_add_flags, update_sub_flags,
}
use picoemu.Thumb.Block.{not_zero}
use picoemu.Thumb.Arith.{carry_in}
use picoemu.Thumb32.Operand.{thumb32_expand_imm, shifted_operand}

-- What follows the `switch`: `wr` says that the result goes to Rd.
abbrev pub dp_store : Bool → ℕ → ℕ → Cpu → Cpu
dp_store wr rd res c =
    if wr && ltb rd 16
    then (if rd == 15 then set_pc (bit_and res (not32 1)) c else set_reg rd res c)
    else c

-- `if (S) { update_nz_flags(res); ... }` with the carry of the shifter.
abbrev pub logic_flags : Bool → ℕ → Bool → Cpu → Cpu
logic_flags s res carry c = if s then put_carry carry (update_nz_flags res c) else c

-- The flags of ADC: those of an addition whose second operand has taken the carry in, then C again.
abbrev pub adc_flags : ℕ → ℕ → ℕ → Cpu → Cpu
adc_flags rn imm32 k c =
    let d = update_add_flags rn (u32 (imm32 + k)) (u32 (rn + imm32 + k)) c in
    record d {
      xpsr = or_if (ltb 0xFFFFFFFF (rn + imm32 + k)) flag_c (bit_and d.xpsr (not32 flag_c));
    }

-- The flags of SBC, from the 64-bit difference; `b` is the borrow that goes in.
abbrev pub sbc_flags : ℕ → ℕ → ℕ → Cpu → Cpu
sbc_flags rn imm32 b c =
    let res = sub32 (sub32 rn imm32) b in
    let ures = u64 (u64 (rn + 0x10000000000000000 - imm32) + 0x10000000000000000 - b) in
    let f0 = or_if (res == 0) flag_z (bit_and c.xpsr nzcv_mask) in
    let f1 = or_if (test res 0x80000000) flag_n f0 in
    let f2 = or_if (ures >> 32 == 0) flag_c f1 in
    record c {
      xpsr = or_if (test (bit_and (bit_xor rn imm32) (bit_xor rn res)) 0x80000000) flag_v f2;
    }

-- AND 0, BIC 1, ORR 2, ORN 3, EOR 4, ADD 8, ADC 10, SBC 11, SUB 13, RSB 14. With Rd = 15 and flags, AND,
-- EOR, ADD and SUB are TST, TEQ, CMN and CMP; with Rn = 15, ORR and ORN are MOV and MVN.
unfoldable pub t32_dp_exec : ℕ → Bool → ℕ → ℕ → ℕ → Bool → Cpu → Cpu
t32_dp_exec op s rn_index rd imm32 shift_c c =
    let rn = c.r rn_index in
    let wr = not ((rd == 15) && s) in
    let k = carry_in c in
    if op == 0x0
    then (let res = bit_and rn imm32 in dp_store wr rd res (logic_flags s res shift_c c))
    else if op == 0x1
    then (let res = bit_and rn (not32 imm32) in dp_store true rd res (logic_flags s res shift_c c))
    else if op == 0x2
    then (let res = if rn_index == 15 then imm32 else bit_or rn imm32 in
        dp_store true rd res (logic_flags s res shift_c c))
    else if op == 0x3
    then (let res = if rn_index == 15 then not32 imm32 else bit_or rn (not32 imm32) in
        dp_store true rd res (logic_flags s res shift_c c))
    else if op == 0x4
    then (let res = bit_xor rn imm32 in dp_store wr rd res (logic_flags s res shift_c c))
    else if op == 0x8
    then (let res = u32 (rn + imm32) in
        dp_store wr rd res (if s then update_add_flags rn imm32 res c else c))
    else if op == 0xA
    then dp_store true rd (u32 (rn + imm32 + k)) (if s then adc_flags rn imm32 k c else c)
    else if op == 0xB
    then (let res = sub32 (sub32 rn imm32) (1 - k) in
        dp_store true rd res (if s then sbc_flags rn imm32 (1 - k) c else c))
    else if op == 0xD
    then (let res = sub32 rn imm32 in
        dp_store wr rd res (if s then update_sub_flags rn imm32 res c else c))
    else if op == 0xE
    then (let res = sub32 imm32 rn in
        dp_store true rd res (if s then update_sub_flags imm32 rn res c else c))
    else c

unfoldable pub t32_dp_shifted_reg : ℕ → ℕ → Cpu → Cpu
unfolding t32_dp_exec shifted_operand
t32_dp_shifted_reg upper lower c =
    let n = bit_or (bits lower 12 7 << 2) (bits lower 6 3) in
    let operand = shifted_operand (c.r (bit_and lower 0xF)) (bits lower 4 3) n c in
    t32_dp_exec (bits upper 5 0xF) (not_zero (bits upper 4 1)) (bit_and upper 0xF)
      (bits lower 8 0xF) operand.0 operand.1 c

-- The field i:imm3:imm8 of the constant forms.
abbrev pub imm12_of : ℕ → ℕ → ℕ
imm12_of upper lower =
    bit_or (bit_or (bits upper 10 1 << 11) (bits lower 12 7 << 8)) (bit_and lower 0xFF)

-- The field imm4:i:imm3:imm8 of MOVW and MOVT.
abbrev pub imm16_of : ℕ → ℕ → ℕ
imm16_of upper lower =
    bit_or
      (bit_or (bit_or (bit_and upper 0xF << 12) (bits upper 10 1 << 11)) (bits lower 12 7 << 8))
      (bit_and lower 0xFF)

unfoldable pub t32_dp_mod_imm : ℕ → ℕ → Cpu → Cpu
unfolding t32_dp_exec thumb32_expand_imm
t32_dp_mod_imm upper lower c =
    let imm32 = thumb32_expand_imm (imm12_of upper lower) in
    t32_dp_exec (bits upper 5 0xF) (not_zero (bits upper 4 1)) (bit_and upper 0xF)
      (bits lower 8 0xF) imm32 (not_zero (bits imm32 31 1)) c

-- The base of ADD and SUB: ADR takes the aligned program counter.
abbrev plain_base : ℕ → ℕ → Cpu → ℕ
plain_base pc rn c = if rn == 15 then bit_and (u32 (pc + 4)) (not32 3) else c.r rn

module _ {W : Type 0} (env : Env W) where
  -- `EXC_HARDFAULT` is 3.
  unfoldable pub t32_dp_plain_imm : ℕ → ℕ → ℕ → Machine W → Machine W
  t32_dp_plain_imm pc upper lower m =
      let op5 = bits upper 4 0x1F in
      let rd = bits lower 8 0xF in
      let base = plain_base pc (bit_and upper 0xF) m.cpu in
      let imm16 = imm16_of upper lower in
      let imm12 = imm12_of upper lower in
      if op5 == 0x04
      then on_cpu (set_reg rd imm16) m
      else if op5 == 0x0C
      then on_cpu (λ c. set_reg rd (bit_or (bit_and (c.r rd) 0x0000FFFF) (imm16 << 16)) c) m
      else if op5 == 0x00
      then on_cpu (set_reg rd (u32 (base + imm12))) m
      else if op5 == 0x0A
      then on_cpu (set_reg rd (sub32 base imm12)) m
      else env.cpu_exception_entry 3 m
