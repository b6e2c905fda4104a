-- ===== src/Thumb/Arith.antt =====
-- Additions, subtractions, comparisons and the product of src/instructions.c.
use picoemu.Base.{
  ℕ, ◌+◌, ◌-◌, ◌*◌, bit_and, bit_or, bit_xor, ◌==◌, ltb, if◌then◌else◌, ◌>>◌, u32, u64, sub32,
  not32,
}
use picoemu.Thumb.State.{Cpu, update, set_reg, set_pc}
use picoemu.Thumb.Flags.{
  bits, test, or_if, flag_n, flag_z, flag_c, flag_v, nzcv_mask, update_nz_flags, update_add_flags,
  update_sub_flags,
}

unfoldable pub instr_adds_imm3 : ℕ → Cpu → Cpu
instr_adds_imm3 instr c =
    let imm = bits instr 6 0x07 in
    let op1 = c.r (bits instr 3 0x07) in
    let result = u32 (op1 + imm) in
    update_add_flags op1 imm result (set_reg (bit_and instr 0x07) result c)

unfoldable pub instr_adds_imm8 : ℕ → Cpu → Cpu
instr_adds_imm8 instr c =
    let reg = bits instr 8 0x07 in
    let imm = bit_and instr 0xFF in
    let op1 = c.r reg in
    let result = u32 (op1 + imm) in update_add_flags op1 imm result (set_reg reg result c)

unfoldable pub instr_subs_imm3 : ℕ → Cpu → Cpu
instr_subs_imm3 instr c =
    let imm = bits instr 6 0x07 in
    let op1 = c.r (bits instr 3 0x07) in
    let result = sub32 op1 imm in
    update_sub_flags op1 imm result (set_reg (bit_and instr 0x07) result c)

unfoldable pub instr_subs_imm8 : ℕ → Cpu → Cpu
instr_subs_imm8 instr c =
    let reg = bits instr 8 0x07 in
    let imm = bit_and instr 0xFF in
    let op1 = c.r reg in
    let result = sub32 op1 imm in update_sub_flags op1 imm result (set_reg reg result c)

unfoldable pub instr_movs_imm8 : ℕ → Cpu → Cpu
instr_movs_imm8 instr c =
    let reg = bits instr 8 0x07 in
    let imm = bit_and instr 0xFF in update_nz_flags imm (set_reg reg imm c)

unfoldable pub instr_adds_reg_reg : ℕ → Cpu → Cpu
instr_adds_reg_reg instr c =
    let op1 = c.r (bits instr 3 0x07) in
    let op2 = c.r (bits instr 6 0x07) in
    let result = u32 (op1 + op2) in
    update_add_flags op1 op2 result (set_reg (bit_and instr 0x07) result c)

-- The destination of the high-register forms: `((instr >> 4) & 8) | (instr & 7)`.
abbrev pub high_dst : ℕ → ℕ
high_dst instr = bit_or (bits instr 4 0x08) (bit_and instr 0x07)

unfoldable pub instr_add_reg_high : ℕ → Cpu → Cpu
instr_add_reg_high instr c =
    let reg_src = bits instr 3 0x0F in
    let reg_dst = high_dst instr in
    let result = u32 (c.r reg_dst + c.r reg_src) in
    if reg_dst == 15 then set_pc (bit_and result (not32 1)) c else set_reg reg_dst result c

unfoldable pub instr_sub_reg_reg : ℕ → Cpu → Cpu
instr_sub_reg_reg instr c =
    let op1 = c.r (bits instr 3 0x07) in
    let op2 = c.r (bits instr 6 0x07) in
    let result = sub32 op1 op2 in
    update_sub_flags op1 op2 result (set_reg (bit_and instr 0x07) result c)

-- `cpu.it_suppress = 0`: a comparison sets the flags inside an IT block too.
abbrev pub keep_flags : Cpu → Cpu
keep_flags c = record c { it_suppress = 0 }

unfoldable pub instr_cmp_imm8 : ℕ → Cpu → Cpu
instr_cmp_imm8 instr c =
    let imm = bit_and instr 0xFF in
    let op1 = c.r (bits instr 8 0x07) in update_sub_flags op1 imm (sub32 op1 imm) (keep_flags c)

unfoldable pub instr_cmp_reg_reg : ℕ → Cpu → Cpu
instr_cmp_reg_reg instr c =
    let op1 = c.r (high_dst instr) in
    let op2 = c.r (bits instr 3 0x0F) in update_sub_flags op1 op2 (sub32 op1 op2) (keep_flags c)

unfoldable pub instr_cmp_alu : ℕ → Cpu → Cpu
instr_cmp_alu instr c =
    let op1 = c.r (bit_and instr 0x07) in
    let op2 = c.r (bits instr 3 0x07) in update_sub_flags op1 op2 (sub32 op1 op2) (keep_flags c)

unfoldable pub instr_cmn_reg : ℕ → Cpu → Cpu
instr_cmn_reg instr c =
    let op1 = c.r (bit_and instr 0x07) in
    let op2 = c.r (bits instr 3 0x07) in update_add_flags op1 op2 (u32 (op1 + op2)) (keep_flags c)

unfoldable pub instr_muls : ℕ → Cpu → Cpu
instr_muls instr c =
    let rd = bit_and instr 0x07 in
    let result = u32 (c.r rd * c.r (bits instr 3 0x07)) in
    update_nz_flags result (set_reg rd result c)

-- `(cpu.xpsr & FLAG_C) ? 1 : 0`
abbrev pub carry_in : Cpu → ℕ
carry_in c = if test c.xpsr flag_c then 1 else 0

unfoldable pub instr_adcs : ℕ → Cpu → Cpu
instr_adcs instr c =
    let rd = bit_and instr 0x07 in
    let op1 = c.r rd in
    let op2 = c.r (bits instr 3 0x07) in
    let result64 = op1 + op2 + carry_in c in
    let result = u32 result64 in
    let x0 = bit_and c.xpsr nzcv_mask in
    let x1 = or_if (result == 0) flag_z x0 in
    let x2 = or_if (test result 0x80000000) flag_n x1 in
    let x3 = or_if (ltb 0xFFFFFFFF result64) flag_c x2 in
    let over = bit_and (bit_xor op1 result) (bit_xor op2 result) in
    let x4 = or_if (test over 0x80000000) flag_v x3 in
    record c { r = update c.r rd result; xpsr = x4 }

unfoldable pub instr_sbcs : ℕ → Cpu → Cpu
instr_sbcs instr c =
    let rd = bit_and instr 0x07 in
    let op1 = c.r rd in
    let op2 = c.r (bits instr 3 0x07) in
    let borrow = 1 - carry_in c in
    let result = sub32 (sub32 op1 op2) borrow in
    let x0 = bit_and c.xpsr nzcv_mask in
    let x1 = or_if (result == 0) flag_z x0 in
    let x2 = or_if (test result 0x80000000) flag_n x1 in
    let uresult = u64 (u64 (op1 + 0x10000000000000000 - op2) + 0x10000000000000000 - borrow) in
    let x3 = or_if (uresult >> 32 == 0) flag_c x2 in
    let over = bit_and (bit_xor op1 op2) (bit_xor op1 result) in
    let x4 = or_if (test over 0x80000000) flag_v x3 in
    record c { r = update c.r rd result; xpsr = x4 }

unfoldable pub instr_rsbs : ℕ → Cpu → Cpu
instr_rsbs instr c =
    let op2 = c.r (bits instr 3 0x07) in
    let result = sub32 0 op2 in
    update_sub_flags 0 op2 result (set_reg (bit_and instr 0x07) result c)

unfoldable pub instr_add_high_reg : ℕ → Cpu → Cpu
instr_add_high_reg instr c =
    let reg_src = bits instr 3 0x0F in
    let reg_dst = high_dst instr in
    let result = u32 (c.r reg_dst + c.r reg_src) in
    if reg_dst == 15 then set_pc (bit_and result (not32 1)) c else set_reg reg_dst result c

unfoldable pub instr_cmp_high_reg : ℕ → Cpu → Cpu
instr_cmp_high_reg instr c = instr_cmp_reg_reg instr (keep_flags c)

unfoldable pub instr_mov_high_reg : ℕ → Cpu → Cpu
instr_mov_high_reg instr c =
    let reg_src = bits instr 3 0x0F in
    let reg_dst = high_dst instr in
    let value = if reg_src == 15 then bit_and (u32 (c.r 15 + 4)) (not32 1) else c.r reg_src in
    if reg_dst == 15 then set_pc (bit_and value (not32 1)) c else set_reg reg_dst value c

unfoldable pub instr_add_sp_imm7 : ℕ → Cpu → Cpu
instr_add_sp_imm7 instr c = set_reg 13 (u32 (c.r 13 + bit_and instr 0x7F * 4)) c

unfoldable pub instr_sub_sp_imm7 : ℕ → Cpu → Cpu
instr_sub_sp_imm7 instr c = set_reg 13 (sub32 (c.r 13) (bit_and instr 0x7F * 4)) c

unfoldable pub instr_adr : ℕ → Cpu → Cpu
instr_adr instr c =
    let pc_aligned = bit_and (u32 (c.r 15 + 4)) (not32 3) in
    set_reg (bits instr 8 0x07) (u32 (pc_aligned + bit_and instr 0xFF * 4)) c

unfoldable pub instr_add_pc_imm8 : ℕ → Cpu → Cpu
instr_add_pc_imm8 instr c = instr_adr instr c
