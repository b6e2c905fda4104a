-- ===== src/Thumb/Branch.antt =====
-- The branches of src/instructions.c, and CBZ and CBNZ of src/cpu.c.
use picoemu.Base.{
  ℕ, ◌+◌, ◌*◌, bit_and, bit_or, bit_xor, Bool, false, not, ◌&&◌, ◌||◌, ◌==◌, if◌then◌else◌, ◌<<◌,
  u32, not32,
}
use picoemu.Thumb.State.{Cpu, set_reg, set_pc, Machine, Env, on_cpu}
use picoemu.Thumb.Flags.{bits, test, flag_n, flag_z, flag_c, flag_v, sign_extend_8, sign_extend_16}
use picoemu.Thumb.Block.{is_magic}

-- `int16_t offset = ...; (int32_t)offset << 1`, as the bits of an `int32_t`.
unfoldable pub instr_b_uncond : ℕ → Cpu → Cpu
unfolding sign_extend_16
instr_b_uncond instr c =
    let low = bit_and instr 0x07FF in
    let offset = if test low 0x0400 then bit_or low 0xF800 else low in
    let signed_offset = u32 (sign_extend_16 offset << 1) in
    set_pc (u32 (c.r 15 + u32 (4 + signed_offset))) c

-- The `switch` on the condition code; 14 and 15 are never taken.
unfoldable pub take_branch : ℕ → ℕ → Bool
take_branch cond xpsr =
    let n = test xpsr flag_n in
    let z = test xpsr flag_z in
    let c = test xpsr flag_c in
    let v = test xpsr flag_v in
    let n_eq_v = if n then v else not v in
    if cond == 0x0
    then z
    else if cond == 0x1
    then not z
    else if cond == 0x2
    then c
    else if cond == 0x3
    then not c
    else if cond == 0x4
    then n
    else if cond == 0x5
    then not n
    else if cond == 0x6
    then v
    else if cond == 0x7
    then not v
    else if cond == 0x8
    then c && not z
    else if cond == 0x9
    then not c || z
    else if cond == 0xA
    then n_eq_v
    else if cond == 0xB
    then not n_eq_v
    else if cond == 0xC
    then not z && n_eq_v
    else if cond == 0xD
    then z || not n_eq_v
    else false

unfoldable pub instr_bcond : ℕ → Cpu → Cpu
unfolding take_branch sign_extend_8
instr_bcond instr c =
    let signed_offset = u32 (sign_extend_8 (bit_and instr 0xFF) * 2) in
    if take_branch (bits instr 8 0x0F) c.xpsr
    then set_pc (u32 (c.r 15 + u32 (4 + signed_offset))) c
    else set_pc (u32 (c.r 15 + 2)) c

-- The offset of BL, sign-extended from bit 24: `S`, `I1`, `I2`, `imm10`, `imm11` joined.
abbrev pub bl_offset : ℕ → ℕ → ℕ → ℕ → ℕ → ℕ
bl_offset s i1 i2 imm10 imm11 =
    let offset =
      bit_or (bit_or (bit_or (bit_or (s << 24) (i1 << 23)) (i2 << 22)) (imm10 << 12))
        (imm11 << 1) in
    if test offset 0x01000000 then bit_or offset 0xFE000000 else offset

-- `cpu.r[14] = (pc + 4) | 1` and the jump.
abbrev pub link_and_jump : ℕ → Cpu → Cpu
link_and_jump target c =
    set_pc (bit_and target (not32 1)) (set_reg 14 (bit_or (u32 (c.r 15 + 4)) 1) c)

unfoldable pub instr_bl_32 : ℕ → ℕ → Cpu → Cpu
instr_bl_32 upper lower c =
    let s = bits upper 10 1 in
    let imm10 = bit_and upper 0x03FF in
    let j1 = bits lower 13 1 in
    let j2 = bits lower 11 1 in
    let imm11 = bit_and lower 0x07FF in
    let i1 = bit_and (not32 (bit_xor j1 s)) 1 in
    let i2 = bit_and (not32 (bit_xor j2 s)) 1 in
    link_and_jump (u32 (u32 (c.r 15 + 4) + bl_offset s i1 i2 imm10 imm11)) c

-- `!x` of a C integer.
abbrev pub c_not : ℕ → ℕ
c_not x = if x == 0 then 1 else 0

unfoldable pub instr_blx : ℕ → Cpu → Cpu
instr_blx instr c =
    let target = c.r (bits instr 3 0x0F) in
    set_pc (bit_and target (not32 1)) (set_reg 14 (bit_or (u32 (c.r 15 + 2)) 1) c)

-- CBZ and CBNZ: forward by `{i1, imm5, 0}` when the register is, or is not, zero.
abbrev pub cbz_target : ℕ → Cpu → ℕ
cbz_target instr c =
    let offset = bit_or (bits instr 9 1 << 6) (bits instr 3 0x1F << 1) in
    u32 (c.r 15 + u32 (4 + offset))

unfoldable pub dispatch_cbz : ℕ → Cpu → Cpu
dispatch_cbz instr c = if c.r (bit_and instr 0x7) == 0 then set_pc (cbz_target instr c) c else c

unfoldable pub dispatch_cbnz : ℕ → Cpu → Cpu
dispatch_cbnz instr c =
    if not (c.r (bit_and instr 0x7) == 0) then set_pc (cbz_target instr c) c else c

module _ {W : Type 0} (env : Env W) where
  unfoldable pub instr_bl : ℕ → Machine W → Machine W
  instr_bl instr m =
      let (instr2, w) = env.mem_read16 (u32 (m.cpu.r 15 + 2)) m.world in
      let s = bits instr 10 0x1 in
      let j1 = bits instr2 13 0x1 in
      let j2 = bits instr2 11 0x1 in
      let i1 = c_not (bit_xor j1 s) in
      let i2 = c_not (bit_xor j2 s) in
      let offset = bl_offset s i1 i2 (bit_and instr 0x3FF) (bit_and instr2 0x7FF) in
      record m { cpu = link_and_jump (u32 (m.cpu.r 15 + 4 + offset)) m.cpu; world = w }

  unfoldable pub instr_bx : ℕ → Machine W → Machine W
  instr_bx instr m =
      let target = m.cpu.r (bits instr 3 0x0F) in
      if is_magic target
      then on_cpu (λ c. record c { pc_updated = 1 }) (env.cpu_exception_return target m)
      else on_cpu (set_pc (bit_and target (not32 1))) m
