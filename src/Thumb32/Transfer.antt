-- ===== src/Thumb32/Transfer.antt =====
-- The loads and stores of src/thumb32.c: several registers, two, and one.
use picoemu.Base.{
  ℕ, zero, suc, ◌+◌, ◌*◌, bit_and, bit_or, Bool, not, ◌&&◌, ◌||◌, ◌==◌, if◌then◌else◌, Option, none,
  some, ◌<<◌, u32, sub32, not32,
}
use picoemu.Thumb.State.{Cpu, set_reg, set_pc, Machine, Env, on_cpu}
use picoemu.Thumb.Flags.{bits, test, sign_extend_8, sign_extend_16}
use picoemu.Thumb.Block.{not_zero, in_list, is_magic, load_loop}
use picoemu.Thumb.Ram.{listed}
use picoemu.Thumb32.Misc.{otherwise}

-- The 16 bits of the register list, taken as the code takes them.
abbrev pub reglist_of : ℕ → ℕ
reglist_of lower =
    bit_or (bit_or (bit_and lower 0x3FFF) (if test lower 0x4000 then 1 << 14 else 0))
      (if test lower 0x8000 then 1 << 15 else 0)

-- `__builtin_popcount` of the list.
abbrev pub popcount16 : ℕ → ℕ
popcount16 reglist = listed (bit_and reglist 0xFFFF) 16

module _ {W : Type 0} (env : Env W) where
  -- One register is stored; the program counter is stored as that of two halfwords on.
  abbrev pub store_step : ℕ → ℕ → ℕ → Machine W → Machine W
  store_step pc i addr m = record m {
    world = env.mem_write32 addr (if i == 15 then u32 (pc + 4) else m.cpu.r i) m.world;
  }

  -- `left` rounds of the storing loop, from register `i` on.
  unfoldable pub store_loop : ℕ → ℕ → ℕ → ℕ → ℕ → Machine W → Machine W
  store_loop zero i pc reglist addr m = m
  store_loop (suc left) i pc reglist addr m =
      let taken = in_list reglist i in
      store_loop left (i + 1) pc reglist (if taken then u32 (addr + 4) else addr)
        (if taken then store_step pc i addr m else m)

  -- The base register after the transfer, where the instruction asks for it.
  unfoldable pub write_back : Bool → Bool → ℕ → ℕ → ℕ → Cpu → Cpu
  write_back wanted is_db rn bytes base_end c =
      if wanted then set_reg rn (if is_db then sub32 (c.r rn) bytes else base_end) c else c

  -- The turn of the loading loop for register 15, and what follows the loop.
  unfoldable pub load_end : Bool → Bool → ℕ → ℕ → ℕ → ℕ → ℕ → Machine W → Machine W
  unfolding write_back
  load_end w is_db rn reglist bytes base_end addr m =
      let (val, world') = env.mem_read32 addr m.world in
      let read = record m { world = world' } in
      let written = on_cpu (write_back (w && not (in_list reglist rn)) is_db rn bytes base_end) in
      if in_list reglist 15
      then (if is_magic val
          then on_cpu (λ c. record c { pc_updated = 1 })
              (env.cpu_exception_return val (written read))
          else written (on_cpu (set_pc (bit_and val (not32 1))) read))
      else written m

  -- The turns of the loading loop for registers 0 to 14 are those of LDMIA.
  unfoldable pub t32_ldst_multiple : ℕ → ℕ → ℕ → Machine W → Machine W
  unfolding store_loop load_end write_back
  t32_ldst_multiple pc upper lower m =
      let is_db = not_zero (bits upper 8 1) in
      let l = not_zero (bits upper 4 1) in
      let w = not_zero (bits upper 5 1) in
      let rn = bit_and upper 0xF in
      let reglist = reglist_of lower in
      let bytes = popcount16 reglist * 4 in
      let addr = if is_db then sub32 (m.cpu.r rn) bytes else m.cpu.r rn in
      let base_end = u32 (addr + bytes) in
      let loaded = load_loop env 15 0 reglist addr m in
      if l
      then load_end w is_db rn reglist bytes base_end loaded.0 loaded.1
      else on_cpu (write_back w is_db rn bytes base_end) (store_loop 16 0 pc reglist addr m)

  unfoldable pub t32_ldrd_strd : ℕ → ℕ → Machine W → Machine W
  t32_ldrd_strd upper lower m =
      let rn = bit_and upper 0xF in
      let rt = bits lower 12 0xF in
      let rt2 = bits lower 8 0xF in
      let imm8 = bit_and lower 0xFF << 2 in
      let base = m.cpu.r rn in
      let offset_addr = if not_zero (bits upper 7 1) then u32 (base + imm8) else sub32 base imm8 in
      let addr = if not_zero (bits upper 8 1) then offset_addr else base in
      let (first, w1) = env.mem_read32 addr m.world in
      let (second, w2) = env.mem_read32 (u32 (addr + 4)) w1 in
      let stored =
        env.mem_write32 (u32 (addr + 4)) (m.cpu.r rt2)
          (env.mem_write32 addr (m.cpu.r rt) m.world) in
      let out =
        if not_zero (bits upper 4 1)
        then record m { cpu = set_reg rt2 second (set_reg rt first m.cpu); world = w2 }
        else record m { world = stored } in
      if not_zero (bits upper 5 1) then on_cpu (set_reg rn offset_addr) out else out

  -- `cpu.r[Rt] = ...` of a value read, and LDR, which may load the program counter.
  abbrev pub put_read : ℕ → (ℕ → ℕ) → ℕ × W → Machine W → Machine W
  put_read rt f read m = record m { cpu = set_reg rt (f read.0) m.cpu; world = read.1 }

  unfoldable pub put_word : ℕ → ℕ × W → Machine W → Machine W
  put_word rt read m = record m {
    cpu = if rt == 15 then set_pc (bit_and read.0 (not32 1)) m.cpu else set_reg rt read.0 m.cpu;
    world = read.1;
  }

  -- The `switch` that the three forms have in common but for the first tests on `L`; `none` goes to
  -- `unhandled_ldst`. `code` is the size and direction, upper[6:4].
  unfoldable pub ldst_switch : ℕ → Bool → Bool → ℕ → ℕ → Machine W → Option (Machine W)
  unfolding put_word
  ldst_switch code l is_signed rt addr m =
      let byte = env.mem_read8 addr m.world in
      let half = env.mem_read16 addr m.world in
      let word = env.mem_read32 addr m.world in
      let store_byte = record m {
        world = env.mem_write8 addr (bit_and (m.cpu.r rt) 0xFF) m.world;
      } in
      let store_half = record m {
        world = env.mem_write16 addr (bit_and (m.cpu.r rt) 0xFFFF) m.world;
      } in
      let store_word = record m { world = env.mem_write32 addr (m.cpu.r rt) m.world } in
      if code == 0
      then some (if l then put_read rt (λ v. v) byte m else store_byte)
      else if code == 1
      then some (put_read rt (λ v. if is_signed then sign_extend_8 v else v) byte m)
      else if code == 2
      then some (if l then put_read rt (λ v. v) half m else store_half)
      else if code == 3
      then some (put_read rt (λ v. if is_signed then sign_extend_16 v else v) half m)
      else if code == 4
      then some (if l then put_read rt (λ v. v) word m else store_word)
      else if code == 5
      then some (if l then put_word rt word m else store_word)
      else none

  -- The end of T4: after an access the base register may take the new address.
  unfoldable pub t4_end : Bool → ℕ → ℕ → Option (Machine W) → Machine W → Machine W
  t4_end w rn offset_addr none m = m
  t4_end w rn offset_addr (some out) m = if w then on_cpu (set_reg rn offset_addr) out else out

  -- The base address: that of the program counter is aligned.
  abbrev pub ldst_base : ℕ → ℕ → Cpu → ℕ
  ldst_base pc rn c = if rn == 15 then bit_and (u32 (pc + 4)) (not32 3) else c.r rn

  -- T3: a 12-bit offset; T4: an 8-bit one, up or down, before or after; T2: a register.
  unfoldable pub t32_ldst_single : ℕ → ℕ → ℕ → Machine W → Machine W
  unfolding ldst_switch t4_end
  t32_ldst_single pc upper lower m =
      let rn = bit_and upper 0xF in
      let rt = bits lower 12 0xF in
      let l = not_zero (bits upper 4 1) in
      let upper_hi = bits upper 4 0xF in
      let code = bit_and upper_hi 7 in
      let is_signed = bits upper 8 0xF == 9 in
      let base = ldst_base pc rn m.cpu in
      let imm8 = bit_and lower 0xFF in
      let offset_addr = if not_zero (bits lower 9 1) then u32 (base + imm8) else sub32 base imm8 in
      let t4_addr = if not_zero (bits lower 10 1) then offset_addr else base in
      let t2_addr = u32 (base + u32 (m.cpu.r (bit_and lower 0xF) << bits lower 4 3)) in
      let half = env.mem_read16 t2_addr m.world in
      if test upper_hi 0x8
      then otherwise (ldst_switch code l is_signed rt (u32 (base + bit_and lower 0xFFF)) m) m
      else if test lower 0x0800 || ((rn == 15) && (bit_and lower 0x0FFF == 0))
      then t4_end (not_zero (bits lower 8 1)) rn offset_addr
          (ldst_switch code l is_signed rt t4_addr m) m
      else if code == 7
      then put_read rt sign_extend_16 half m
      else otherwise (ldst_switch code l is_signed rt t2_addr m) m
