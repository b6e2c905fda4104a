-- ===== src/Thumb32/Branches.antt =====
-- The wide branches, the call and the table branches of src/thumb32.c. Recording the call graph is
-- left out.
use picoemu.Base.{ℕ, ◌+◌, ◌*◌, bit_and, bit_or, bit_xor, ◌==◌, if◌then◌else◌, ◌<<◌, u32}
use picoemu.Thumb.State.{Cpu, set_reg, set_pc, Machine, Env}
use picoemu.Thumb.Flags.{bits}
use picoemu.Thumb.Block.{not_zero}
use picoemu.Thumb.Branch.{c_not}
use picoemu.Exception.Predication.{t32_check_cond}

-- The offset of BL and B.W: S:I1:I2:imm10:imm11:0, with the sign in the top byte.
abbrev pub wide_offset : ℕ → ℕ → ℕ
wide_offset upper lower =
    let s = bits upper 10 1 in
    let i1 = bit_and (c_not (bit_xor (bits lower 13 1) s)) 1 in
    let i2 = bit_and (c_not (bit_xor (bits lower 11 1) s)) 1 in
    let offset =
      bit_or (bit_or (bit_or (bit_or (s << 24) (i1 << 23)) (i2 << 22)) (bit_and upper 0x3FF << 12))
        (bit_and lower 0x7FF << 1) in
    if not_zero s then bit_or offset 0xFF000000 else offset

-- The offset of the conditional branch: S:J2:J1:imm6:imm11:0.
abbrev pub cond_offset : ℕ → ℕ → ℕ
cond_offset upper lower =
    let s = bits upper 10 1 in
    let offset =
      bit_or
        (bit_or (bit_or (bit_or (s << 20) (bits lower 11 1 << 19)) (bits lower 13 1 << 18))
          (bit_and upper 0x3F << 12))
        (bit_and lower 0x7FF << 1) in
    if not_zero s then bit_or offset 0xFFE00000 else offset

unfoldable pub t32_bl : ℕ → ℕ → ℕ → Cpu → Cpu
t32_bl pc upper lower c =
    set_pc (u32 (u32 (pc + 4) + wide_offset upper lower)) (set_reg 14 (bit_or (u32 (pc + 4)) 1) c)

unfoldable pub t32_branch : ℕ → ℕ → ℕ → Cpu → Cpu
t32_branch pc upper lower c =
    if not_zero (bits lower 12 1)
    then set_pc (u32 (u32 (pc + 4) + wide_offset upper lower)) c
    else if t32_check_cond (bits upper 6 0xF) c.xpsr
    then set_pc (u32 (u32 (pc + 4) + cond_offset upper lower)) c
    else c

module _ {W : Type 0} (env : Env W) where
  unfoldable pub t32_tbb_tbh : ℕ → ℕ → ℕ → Machine W → Machine W
  t32_tbb_tbh pc upper lower m =
      let rn = bit_and upper 0xF in
      let base = if rn == 15 then u32 (pc + 4) else m.cpu.r rn in
      let index = m.cpu.r (bit_and lower 0xF) in
      let h = not_zero (bits lower 4 1) in
      let addr = u32 (base + (if h then u32 (index * 2) else index)) in
      let read = if h then env.mem_read16 addr m.world else env.mem_read8 addr m.world in
      record m { cpu = set_pc (u32 (u32 (pc + 4) + read.0 * 2)) m.cpu; world = read.1 }
