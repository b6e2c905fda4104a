-- ===== src/Membus/Tests.antt =====
-- The theorems on the RAM at a concrete bus, with PUSH and POP on it.
use picoemu.Base.{ℕ, ◌+◌, ◌≡◌, refl, none, arith}
use picoemu.Thumb.State.{Env}
use picoemu.Thumb.Ram.{IsRam}
use picoemu.Membus.Bytes.{load, store}
use picoemu.Membus.Access.{
  Bus, BusEnv, sram_alias_translate, mem_read32, mem_read16, mem_read8, mem_write32,
}
use picoemu.Membus.Interface.{IsPlain, on_bus, on_bus-IsRam, mem_read8-mem_write32}

-- 264 KiB of RAM, nothing behind the other addresses.
abbrev rp2040 : BusEnv ℕ
rp2040 = record {
  active_ram_base = 0x20000000;
  active_ram_size = 0x42000;
  membus_rp2350_mode = 0;
  gdb_check_watchpoint_read = λ a n w. w;
  gdb_check_watchpoint_write = λ a n w. w;
  arm_excl_observe_store = λ a w. w;
  icache_invalidate_addr = λ a w. w;
  jit_invalidate_addr = λ a w. w + 1;
  record_read = λ a v w. w;
  record_write = λ a v w. w;
  other_read32 = λ a b. (0, b);
  other_read16 = λ a b. (0, b);
  other_read8 = λ a b. (0, b);
  other_write32 = λ a v b. b;
  other_write16 = λ a v b. b;
  other_write8 = λ a v b. b;
}

rp2040-IsPlain : IsPlain rp2040
rp2040-IsPlain = record {
  base = refl;
  size = omega arith;
  no_debugger = λ a n w. refl;
  no_statistics = λ a v w. refl;
}

abbrev zeroed : Bus ℕ
zeroed = record { ram = λ i. 0; world = 0 }

abbrev nothing : Env (Bus ℕ)
nothing = record {
  mem_read8 = λ a b. (0, b);
  mem_read16 = λ a b. (0, b);
  mem_read32 = λ a b. (0, b);
  mem_write8 = λ a v b. b;
  mem_write16 = λ a v b. b;
  mem_write32 = λ a v b. b;
  cpu_exception_entry = λ v m. m;
  cpu_exception_return = λ v m. m;
  semihosting_handle = λ m. none;
}

on_bus-IsRam_example : IsRam (on_bus rp2040 rp2040-IsPlain nothing) 0x20000000 0x20042000
on_bus-IsRam_example = on_bus-IsRam rp2040 rp2040-IsPlain nothing

mem_read8-mem_write32_example :
    let out = mem_write32 rp2040 0x20000102 0x11223344 zeroed in
    ((mem_read8 rp2040 0x20000103 out).0 ≡ 0x33)
    × ((mem_read16 rp2040 0x20000102 out).0 ≡ 0x3344)
    × ((mem_read16 rp2040 0x20000104 out).0 ≡ 0x1122)
mem_read8-mem_write32_example =
    mem_read8-mem_write32 rp2040 rp2040-IsPlain 0x20000102 1 0x11223344 zeroed (omega arith)
      (omega arith) (omega arith) (omega arith)

-- The mirror at 0x21000000 shows the same word.
mirrored :
    (mem_read32 rp2040 0x21000102 (mem_write32 rp2040 0x20000102 0x11223344 zeroed)).0 ≡ 0x11223344
unfolding mem_read32 mem_write32 sram_alias_translate load store
mirrored = refl
