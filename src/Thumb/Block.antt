-- ===== src/Thumb/Block.antt =====
-- The block transfers of src/instructions.c: STMIA, LDMIA, PUSH and POP.
use picoemu.Base.{
  ℕ, zero, suc, ◌+◌, bit_and, Bool, not, ◌==◌, if◌then◌else◌, ◌<<◌, u32, sub32, not32,
}
use picoemu.Thumb.State.{set_reg, set_pc, Machine, Env, on_cpu}
use picoemu.Thumb.Flags.{bits, test}

-- A C integer as a condition.
abbrev pub not_zero : ℕ → Bool
not_zero x = not (x == 0)

-- `rlist & (1 << i)`
abbrev pub in_list : ℕ → ℕ → Bool
in_list rlist i = test rlist (1 << i)

-- A return value of the form 0xFFFFFFFx asks for an exception return.
abbrev pub is_magic : ℕ → Bool
is_magic value = bit_and value 0xFFFFFFF0 == 0xFFFFFFF0

module _ {W : Type 0} (env : Env W) where
  -- One register is stored at the base register, which moves up.
  abbrev pub stmia_step : ℕ → ℕ → Machine W → Machine W
  stmia_step base i m = record m {
    cpu = set_reg base (u32 (m.cpu.r base + 4)) m.cpu;
    world = env.mem_write32 (m.cpu.r base) (m.cpu.r i) m.world;
  }

  -- `left` rounds of the loop from register `i` on.
  unfoldable pub stmia_loop : ℕ → ℕ → ℕ → ℕ → Machine W → Machine W
  stmia_loop zero i base rlist m = m
  stmia_loop (suc left) i base rlist m =
      stmia_loop left (i + 1) base rlist (if in_list rlist i then stmia_step base i m else m)

  unfoldable pub instr_stmia : ℕ → Machine W → Machine W
  unfolding stmia_loop
  instr_stmia instr m = stmia_loop 8 0 (bits instr 8 0x07) (bit_and instr 0xFF) m

  abbrev pub load_step : ℕ → ℕ → Machine W → Machine W
  load_step i addr m =
      let (value, w) = env.mem_read32 addr m.world in
      record m { cpu = set_reg i value m.cpu; world = w }

  -- The loop that LDMIA and POP share: the listed registers from `i` on are read upwards.
  unfoldable pub load_loop : ℕ → ℕ → ℕ → ℕ → Machine W → ℕ × Machine W
  load_loop zero i rlist addr m = (addr, m)
  load_loop (suc left) i rlist addr m =
      let taken = in_list rlist i in
      load_loop left (i + 1) rlist (if taken then u32 (addr + 4) else addr)
        (if taken then load_step i addr m else m)

  unfoldable pub instr_ldmia : ℕ → Machine W → Machine W
  unfolding load_loop
  instr_ldmia instr m =
      let base = bits instr 8 0x07 in
      let rlist = bit_and instr 0xFF in
      let (addr, m') = load_loop 8 0 rlist (m.cpu.r base) m in
      if bits rlist base 1 == 0 then on_cpu (set_reg base addr) m' else m'

  abbrev pub push_word : ℕ → ℕ → Machine W → Machine W
  push_word sp value m = record m { world = env.mem_write32 sp value m.world }

  -- Registers `n - 1` down to 0; the stack pointer goes down before each store.
  unfoldable pub push_loop : ℕ → ℕ → ℕ → Machine W → ℕ × Machine W
  push_loop zero reglist sp m = (sp, m)
  push_loop (suc i) reglist sp m =
      let taken = in_list reglist i in
      push_loop i reglist (if taken then sub32 sp 4 else sp)
        (if taken then push_word (sub32 sp 4) (m.cpu.r i) m else m)

  unfoldable pub instr_push : ℕ → Machine W → Machine W
  unfolding push_loop
  instr_push instr m =
      let reglist = bit_and instr 0xFF in
      let with_lr = not_zero (bits instr 8 0x1) in
      let sp = m.cpu.r 13 in
      let sp' = if with_lr then sub32 sp 4 else sp in
      let m' = if with_lr then push_word sp' (m.cpu.r 14) m else m in
      let (sp_end, m_end) = push_loop 8 reglist sp' m' in on_cpu (set_reg 13 sp_end) m_end

  -- The end of POP: the program counter, or an exception return.
  unfoldable pub pop_pc : ℕ → Machine W → Machine W
  pop_pc sp m =
      let (pc_val, w) = env.mem_read32 sp m.world in
      let m' = record m { world = w } in
      let moved = on_cpu (set_reg 13 (u32 (sp + 4))) m' in
      if is_magic pc_val
      then on_cpu (λ c. record c { pc_updated = 1 }) (env.cpu_exception_return pc_val moved)
      else on_cpu (λ c. set_reg 13 (u32 (sp + 4)) (set_pc (bit_and pc_val (not32 1)) c)) m'

  unfoldable pub instr_pop : ℕ → Machine W → Machine W
  unfolding load_loop pop_pc
  instr_pop instr m =
      let reglist = bit_and instr 0xFF in
      let (sp, m') = load_loop 8 0 reglist (m.cpu.r 13) m in
      if not_zero (bits instr 8 0x1) then pop_pc sp m' else on_cpu (set_reg 13 sp) m'
