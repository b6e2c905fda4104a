-- ===== src/Thumb/Dispatch.antt =====
-- The dispatch of a 16-bit instruction by its top byte: `dispatch_table` and the secondary
-- dispatchers of src/cpu.c.
use picoemu.Base.{ℕ, ◌+◌, bit_and, ◌==◌, ltb, ◌||◌, if◌then◌else◌, ◌>>◌, u32, ◌<<◌}
use picoemu.Thumb.State.{Cpu, set_reg, Machine, Env, on_cpu}
use picoemu.Thumb.Flags.{bits}
use picoemu.Thumb.Arith
use picoemu.Thumb.Shift
use picoemu.Thumb.Logic
use picoemu.Thumb.Load
use picoemu.Thumb.Block
use picoemu.Thumb.Block.{not_zero}
use picoemu.Thumb.Branch
use picoemu.Thumb.System

-- The two selecting bits of the ALU blocks, as a `switch`.
abbrev pub switch4 {ℓ} : {A : Type ℓ} → ℕ → A → A → A → A → A
switch4 instr a b c d =
    let sel = bits instr 6 0x3 in
    if sel == 0 then a else if sel == 1 then b else if sel == 2 then c else d

unfoldable pub dispatch_alu_40 : ℕ → Cpu → Cpu
dispatch_alu_40 instr c =
    switch4 instr (Logic.instr_bitwise_and instr c) (Logic.instr_bitwise_eor instr c)
      (Shift.instr_lsls_reg instr c) (Shift.instr_lsrs_reg instr c)

unfoldable pub dispatch_alu_41 : ℕ → Cpu → Cpu
dispatch_alu_41 instr c =
    switch4 instr (Shift.instr_asrs_reg instr c) (Arith.instr_adcs instr c)
      (Arith.instr_sbcs instr c) (Shift.instr_rors_reg instr c)

unfoldable pub dispatch_alu_42 : ℕ → Cpu → Cpu
dispatch_alu_42 instr c =
    switch4 instr (Logic.instr_tst_reg_reg instr c) (Arith.instr_rsbs instr c)
      (Arith.instr_cmp_alu instr c) (Arith.instr_cmn_reg instr c)

unfoldable pub dispatch_alu_43 : ℕ → Cpu → Cpu
dispatch_alu_43 instr c =
    switch4 instr (Logic.instr_bitwise_orr instr c) (Arith.instr_muls instr c)
      (Logic.instr_bitwise_bic instr c) (Logic.instr_bitwise_mvn instr c)

unfoldable pub dispatch_sp_b0 : ℕ → Cpu → Cpu
dispatch_sp_b0 instr c =
    if not_zero (bit_and instr 0x80)
    then Arith.instr_sub_sp_imm7 instr c
    else Arith.instr_add_sp_imm7 instr c

unfoldable pub dispatch_extend_b2 : ℕ → Cpu → Cpu
dispatch_extend_b2 instr c =
    switch4 instr (Logic.instr_sxth instr c) (Logic.instr_sxtb instr c) (Logic.instr_uxth instr c)
      (Logic.instr_uxtb instr c)

unfoldable pub dispatch_cps_b6 : ℕ → Cpu → Cpu
dispatch_cps_b6 instr c =
    if not_zero (bit_and instr 0x10) then System.instr_cpsid c else System.instr_cpsie c

unfoldable pub dispatch_add_sp_rd : ℕ → Cpu → Cpu
dispatch_add_sp_rd instr c =
    set_reg (bits instr 8 0x07) (u32 (c.r 13 + (bit_and instr 0xFF << 2))) c

-- `dispatch_table[i]` of the handlers that stay inside the register file, for `i` below 0x47.
unfoldable pub dispatch_data : ℕ → ℕ → Cpu → Cpu
dispatch_data i instr c =
    if ltb i 0x08
    then Shift.instr_shift_logical_left instr c
    else if ltb i 0x10
    then Shift.instr_shift_logical_right instr c
    else if ltb i 0x18
    then Shift.instr_shift_arithmetic_right instr c
    else if ltb i 0x1A
    then Arith.instr_adds_reg_reg instr c
    else if ltb i 0x1C
    then Arith.instr_sub_reg_reg instr c
    else if ltb i 0x1E
    then Arith.instr_adds_imm3 instr c
    else if ltb i 0x20
    then Arith.instr_subs_imm3 instr c
    else if ltb i 0x28
    then Arith.instr_movs_imm8 instr c
    else if ltb i 0x30
    then Arith.instr_cmp_imm8 instr c
    else if ltb i 0x38
    then Arith.instr_adds_imm8 instr c
    else if ltb i 0x40
    then Arith.instr_subs_imm8 instr c
    else if i == 0x40
    then dispatch_alu_40 instr c
    else if i == 0x41
    then dispatch_alu_41 instr c
    else if i == 0x42
    then dispatch_alu_42 instr c
    else if i == 0x43
    then dispatch_alu_43 instr c
    else if i == 0x44
    then Arith.instr_add_reg_high instr c
    else if i == 0x45
    then Arith.instr_cmp_reg_reg instr c
    else Arith.instr_mov_high_reg instr c

module _ {W : Type 0} (env : Env W) where
  unfoldable pub dispatch_special_47 : ℕ → Machine W → Machine W
  dispatch_special_47 instr m =
      if not_zero (bit_and instr 0x80)
      then on_cpu (Branch.instr_blx instr) m
      else Branch.instr_bx env instr m

  unfoldable pub dispatch_rev_ba : ℕ → Machine W → Machine W
  dispatch_rev_ba instr m =
      switch4 instr (on_cpu (Logic.instr_rev instr) m) (on_cpu (Logic.instr_rev16 instr) m)
        (System.instr_unimplemented env m) (on_cpu (Logic.instr_revsh instr) m)

  -- A low nibble that is not 0 is IT; the hints after 4 are no-operations.
  unfoldable pub dispatch_hints_bf : ℕ → Machine W → Machine W
  dispatch_hints_bf instr m =
      let op = bits instr 4 0xF in
      if not_zero (bit_and instr 0x000F)
      then on_cpu (System.instr_it instr) m
      else if op == 0x1
      then on_cpu System.instr_yield m
      else if op == 0x2
      then System.instr_wfe m
      else if op == 0x3
      then System.instr_wfi m
      else if op == 0x4
      then System.instr_sev m
      else on_cpu System.instr_nop m

  -- `dispatch_table[i]` for `i` from 0x48 to 0xAF.
  unfoldable pub dispatch_load : ℕ → ℕ → Machine W → Machine W
  dispatch_load i instr m =
      if ltb i 0x50
      then Load.instr_ldr_pc_imm8 env instr m
      else if ltb i 0x52
      then Load.instr_str_reg_offset env instr m
      else if ltb i 0x54
      then Load.instr_strh_reg_offset env instr m
      else if ltb i 0x56
      then Load.instr_strb_reg_offset env instr m
      else if ltb i 0x58
      then Load.instr_ldrsb_reg_offset env instr m
      else if ltb i 0x5A
      then Load.instr_ldr_reg_offset env instr m
      else if ltb i 0x5C
      then Load.instr_ldrh_reg_offset env instr m
      else if ltb i 0x5E
      then Load.instr_ldrb_reg_offset env instr m
      else if ltb i 0x60
      then Load.instr_ldrsh_reg_offset env instr m
      else if ltb i 0x68
      then Load.instr_str_imm5 env instr m
      else if ltb i 0x70
      then Load.instr_ldr_imm5 env instr m
      else if ltb i 0x78
      then Load.instr_strb_imm5 env instr m
      else if ltb i 0x80
      then Load.instr_ldrb_imm5 env instr m
      else if ltb i 0x88
      then Load.instr_strh_imm5 env instr m
      else if ltb i 0x90
      then Load.instr_ldrh_imm5 env instr m
      else if ltb i 0x98
      then Load.instr_str_sp_imm8 env instr m
      else if ltb i 0xA0
      then Load.instr_ldr_sp_imm8 env instr m
      else if ltb i 0xA8
      then on_cpu (Arith.instr_adr instr) m
      else on_cpu (dispatch_add_sp_rd instr) m

  -- `dispatch_table[i]` for `i` from 0xB0 to 0xBF; 0xB7 and 0xB8 keep the default.
  unfoldable pub dispatch_misc : ℕ → ℕ → Machine W → Machine W
  dispatch_misc i instr m =
      if i == 0xB0
      then on_cpu (dispatch_sp_b0 instr) m
      else if i == 0xB1 || i == 0xB3
      then on_cpu (Branch.dispatch_cbz instr) m
      else if i == 0xB2
      then on_cpu (dispatch_extend_b2 instr) m
      else if i == 0xB4 || i == 0xB5
      then Block.instr_push env instr m
      else if i == 0xB6
      then on_cpu (dispatch_cps_b6 instr) m
      else if i == 0xB9 || i == 0xBB
      then on_cpu (Branch.dispatch_cbnz instr) m
      else if i == 0xBA
      then dispatch_rev_ba instr m
      else if i == 0xBC || i == 0xBD
      then Block.instr_pop env instr m
      else if i == 0xBE
      then System.instr_bkpt env instr m
      else if i == 0xBF
      then dispatch_hints_bf instr m
      else System.instr_unimplemented env m

  -- `dispatch_table[i]` for `i` from 0xC0 on; from 0xE8 on the entries keep the default.
  unfoldable pub dispatch_top : ℕ → ℕ → Machine W → Machine W
  dispatch_top i instr m =
      if ltb i 0xC8
      then Block.instr_stmia env instr m
      else if ltb i 0xD0
      then Block.instr_ldmia env instr m
      else if ltb i 0xDE
      then on_cpu (Branch.instr_bcond instr) m
      else if i == 0xDE
      then System.instr_udf env m
      else if i == 0xDF
      then System.instr_svc env instr m
      else if ltb i 0xE8
      then on_cpu (Branch.instr_b_uncond instr) m
      else System.instr_unimplemented env m

  -- `dispatch_table[instr >> 8](instr)`
  unfoldable pub dispatch : ℕ → Machine W → Machine W
  unfolding dispatch_load dispatch_misc dispatch_top
  dispatch instr m =
      let i = instr >> 8 in
      if ltb i 0x47
      then on_cpu (dispatch_data i instr) m
      else if i == 0x47
      then dispatch_special_47 instr m
      else if ltb i 0xB0
      then dispatch_load i instr m
      else if ltb i 0xC0
      then dispatch_misc i instr m
      else dispatch_top i instr m
