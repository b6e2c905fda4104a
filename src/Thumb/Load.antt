-- ===== src/Thumb/Load.antt =====
-- The loads and stores of one register of src/instructions.c.
use picoemu.Base.{ℕ, ◌+◌, ◌*◌, bit_and, ◌<<◌, u32, not32}
use picoemu.Thumb.State.{Cpu, set_reg, Machine, Env}
use picoemu.Thumb.Flags.{bits, sign_extend_8, sign_extend_16}

-- Addresses: base and scaled constant, base and offset register, PC and SP relative.
abbrev pub imm5_address : ℕ → ℕ → Cpu → ℕ
imm5_address k instr c = u32 (c.r (bits instr 3 0x07) + (bits instr 6 0x1F << k))

abbrev pub reg_address : ℕ → Cpu → ℕ
reg_address instr c = u32 (c.r (bits instr 3 0x07) + c.r (bits instr 6 0x07))

abbrev pub pc_address : ℕ → Cpu → ℕ
pc_address instr c = u32 (bit_and (c.r 15) (not32 3) + bit_and instr 0xFF * 4 + 4)

abbrev pub sp_address : ℕ → Cpu → ℕ
sp_address instr c = u32 (c.r 13 + (bit_and instr 0xFF << 2))

-- `cpu.r[rd] = f(read(addr))`
abbrev pub load_with : {W : Type 0} → (ℕ → W → ℕ × W) → (ℕ → ℕ) → ℕ → ℕ → Machine W → Machine W
load_with read f rd addr m =
    let (value, w) = read addr m.world in record m { cpu = set_reg rd (f value) m.cpu; world = w }

abbrev pub store_with : {W : Type 0} → (ℕ → ℕ → W → W) → ℕ → ℕ → Machine W → Machine W
store_with write addr value m = record m { world = write addr value m.world }

module _ {W : Type 0} (env : Env W) where
  unfoldable pub instr_ldr_imm5 : ℕ → Machine W → Machine W
  instr_ldr_imm5 instr m =
      load_with env.mem_read32 (λ v. v) (bit_and instr 0x07) (imm5_address 2 instr m.cpu) m

  unfoldable pub instr_str_imm5 : ℕ → Machine W → Machine W
  instr_str_imm5 instr m =
      store_with env.mem_write32 (imm5_address 2 instr m.cpu) (m.cpu.r (bit_and instr 0x07)) m

  unfoldable pub instr_ldr_pc_imm8 : ℕ → Machine W → Machine W
  instr_ldr_pc_imm8 instr m =
      load_with env.mem_read32 (λ v. v) (bits instr 8 0x07) (pc_address instr m.cpu) m

  unfoldable pub instr_ldr_sp_imm8 : ℕ → Machine W → Machine W
  instr_ldr_sp_imm8 instr m =
      load_with env.mem_read32 (λ v. v) (bits instr 8 0x07) (sp_address instr m.cpu) m

  unfoldable pub instr_str_sp_imm8 : ℕ → Machine W → Machine W
  instr_str_sp_imm8 instr m =
      store_with env.mem_write32 (sp_address instr m.cpu) (m.cpu.r (bits instr 8 0x07)) m

  unfoldable pub instr_str_reg_offset : ℕ → Machine W → Machine W
  instr_str_reg_offset instr m =
      store_with env.mem_write32 (reg_address instr m.cpu) (m.cpu.r (bit_and instr 0x07)) m

  unfoldable pub instr_ldr_reg_offset : ℕ → Machine W → Machine W
  instr_ldr_reg_offset instr m =
      load_with env.mem_read32 (λ v. v) (bit_and instr 0x07) (reg_address instr m.cpu) m

  unfoldable pub instr_ldrb_imm5 : ℕ → Machine W → Machine W
  instr_ldrb_imm5 instr m =
      load_with env.mem_read8 (λ v. v) (bit_and instr 0x07) (imm5_address 0 instr m.cpu) m

  unfoldable pub instr_ldrb_reg_offset : ℕ → Machine W → Machine W
  instr_ldrb_reg_offset instr m =
      load_with env.mem_read8 (λ v. v) (bit_and instr 0x07) (reg_address instr m.cpu) m

  unfoldable pub instr_ldrsb_reg_offset : ℕ → Machine W → Machine W
  instr_ldrsb_reg_offset instr m =
      load_with env.mem_read8 sign_extend_8 (bit_and instr 0x07) (reg_address instr m.cpu) m

  unfoldable pub instr_strb_imm5 : ℕ → Machine W → Machine W
  instr_strb_imm5 instr m =
      let value = bit_and (m.cpu.r (bit_and instr 0x07)) 0xFF in
      store_with env.mem_write8 (imm5_address 0 instr m.cpu) value m

  unfoldable pub instr_strb_reg_offset : ℕ → Machine W → Machine W
  instr_strb_reg_offset instr m =
      let value = bit_and (m.cpu.r (bit_and instr 0x07)) 0xFF in
      store_with env.mem_write8 (reg_address instr m.cpu) value m

  unfoldable pub instr_ldrh_imm5 : ℕ → Machine W → Machine W
  instr_ldrh_imm5 instr m =
      load_with env.mem_read16 (λ v. v) (bit_and instr 0x07) (imm5_address 1 instr m.cpu) m

  unfoldable pub instr_ldrh_reg_offset : ℕ → Machine W → Machine W
  instr_ldrh_reg_offset instr m =
      load_with env.mem_read16 (λ v. v) (bit_and instr 0x07) (reg_address instr m.cpu) m

  unfoldable pub instr_ldrsh_reg_offset : ℕ → Machine W → Machine W
  instr_ldrsh_reg_offset instr m =
      load_with env.mem_read16 sign_extend_16 (bit_and instr 0x07) (reg_address instr m.cpu) m

  unfoldable pub instr_strh_imm5 : ℕ → Machine W → Machine W
  instr_strh_imm5 instr m =
      let value = bit_and (m.cpu.r (bit_and instr 0x07)) 0xFFFF in
      store_with env.mem_write16 (imm5_address 1 instr m.cpu) value m

  unfoldable pub instr_strh_reg_offset : ℕ → Machine W → Machine W
  instr_strh_reg_offset instr m =
      let value = bit_and (m.cpu.r (bit_and instr 0x07)) 0xFFFF in
      store_with env.mem_write16 (reg_address instr m.cpu) value m
