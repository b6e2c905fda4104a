-- ===== src/Membus/Access.antt =====
-- Reads and writes of src/membus.c as far as they reach the RAM. `other_...` are the parts of the
-- functions behind the tests for the RAM, and those for ROM, flash and the XIP cache before them.
use picoemu.Base.{
  ℕ, ◌+◌, ◌-◌, ◌*◌, Option, none, some, Bool, not, ◌&&◌, ◌||◌, leb, ltb, ◌==◌, if◌then◌else◌,
}
use picoemu.Membus.Bytes.{load, store}

-- `active_ram`, and all else.
pub record Bus (W : Type 0) : Type 0 where
  pub ram : ℕ → ℕ
  pub world : W

-- `active_ram_base` and `active_ram_size`, which the emulator sets once when it starts; the debugger, the
-- exclusive monitor, the caches of decoded code and the statistics; and the other devices.
pub record BusEnv (W : Type 0) : Type 0 where
  pub active_ram_base : ℕ
  pub active_ram_size : ℕ
  pub membus_rp2350_mode : ℕ
  pub gdb_check_watchpoint_read : ℕ → ℕ → W → W
  pub gdb_check_watchpoint_write : ℕ → ℕ → W → W
  pub arm_excl_observe_store : ℕ → W → W
  pub icache_invalidate_addr : ℕ → W → W
  pub jit_invalidate_addr : ℕ → W → W
  pub record_read : ℕ → ℕ → W → W
  pub record_write : ℕ → ℕ → W → W
  pub other_read32 : ℕ → Bus W → ℕ × Bus W
  pub other_read16 : ℕ → Bus W → ℕ × Bus W
  pub other_read8 : ℕ → Bus W → ℕ × Bus W
  pub other_write32 : ℕ → ℕ → Bus W → Bus W
  pub other_write16 : ℕ → ℕ → Bus W → Bus W
  pub other_write8 : ℕ → ℕ → Bus W → Bus W

-- RAM_SIZE is 264 KiB.
unfoldable pub sram_alias_translate : ℕ → ℕ
sram_alias_translate addr =
    if leb 0x21000000 addr && ltb addr (0x21000000 + 264 * 1024)
    then addr - 0x21000000 + 0x20000000
    else addr

module _ {W : Type 0} (env : BusEnv W) where
  abbrev pub in_ram : ℕ → Bool
  in_ram addr = leb env.active_ram_base addr && ltb addr (env.active_ram_base + env.active_ram_size)

  -- FLASH_BASE with 2 MiB, and XIP_SRAM_BASE with 16 KiB.
  abbrev pub in_xip : ℕ → Bool
  in_xip addr =
      (leb 0x10000000 addr && ltb addr (0x10000000 + 2 * 1024 * 1024))
      || (leb 0x15000000 addr && ltb addr (0x15000000 + 16 * 1024))

  -- ROM_SIZE is 0x4000; the RP2350 has the ROM at 0x08000000 too.
  abbrev pub in_rom : ℕ → Bool
  in_rom addr =
      ltb addr 0x4000
      || (not (env.membus_rp2350_mode == 0)
          && (leb 0x08000000 addr && ltb addr (0x08000000 + 0x4000)))

  -- What the debugger sees of an access, before the address is translated.
  abbrev watched_read : ℕ → ℕ → Bus W → Bus W
  watched_read addr size b = record b { world = env.gdb_check_watchpoint_read addr size b.world }

  abbrev watched_write : ℕ → ℕ → Bus W → Bus W
  watched_write addr size b = record b {
    world = env.arm_excl_observe_store addr (env.gdb_check_watchpoint_write addr size b.world);
  }

  -- Decoded instructions at the address are dropped.
  abbrev invalidated : ℕ → W → W
  invalidated addr w = env.jit_invalidate_addr addr (env.icache_invalidate_addr addr w)

  unfoldable pub mem_read32 : ℕ → Bus W → ℕ × Bus W
  mem_read32 address bus =
      let b = watched_read address 4 bus in
      let addr = sram_alias_translate address in
      let val = load 4 b.ram (addr - env.active_ram_base) in
      if in_ram addr
      then (val, record b { world = env.record_read addr val b.world })
      else env.other_read32 addr b

  unfoldable pub mem_read16 : ℕ → Bus W → ℕ × Bus W
  mem_read16 address bus =
      let b = watched_read address 2 bus in
      let addr = sram_alias_translate address in
      if in_rom addr || in_xip addr
      then env.other_read16 addr b
      else if in_ram addr
      then (load 2 b.ram (addr - env.active_ram_base), b)
      else env.other_read16 addr b

  unfoldable pub mem_read8 : ℕ → Bus W → ℕ × Bus W
  mem_read8 address bus =
      let b = watched_read address 1 bus in
      let addr = sram_alias_translate address in
      if in_rom addr || in_xip addr
      then env.other_read8 addr b
      else if in_ram addr
      then (b.ram (addr - env.active_ram_base), b)
      else env.other_read8 addr b

  unfoldable pub mem_write32 : ℕ → ℕ → Bus W → Bus W
  mem_write32 address val bus =
      let b = watched_write address 4 bus in
      let addr = sram_alias_translate address in
      if in_ram addr
      then record b {
        ram = store 4 (addr - env.active_ram_base) val b.ram;
        world = env.record_write addr val (invalidated addr b.world);
      }
      else env.other_write32 addr val b

  unfoldable pub mem_write16 : ℕ → ℕ → Bus W → Bus W
  mem_write16 address val bus =
      let b = watched_write address 2 bus in
      let addr = sram_alias_translate address in
      if in_xip addr
      then env.other_write16 addr val b
      else if in_ram addr
      then record b {
        ram = store 2 (addr - env.active_ram_base) val b.ram;
        world = invalidated addr b.world;
      }
      else env.other_write16 addr val b

  unfoldable pub mem_write8 : ℕ → ℕ → Bus W → Bus W
  mem_write8 address val bus =
      let b = watched_write address 1 bus in
      let addr = sram_alias_translate address in
      if in_xip addr
      then env.other_write8 addr val b
      else if in_ram addr
      then record b {
        ram = store 1 (addr - env.active_ram_base) val b.ram;
        world = invalidated addr b.world;
      }
      else env.other_write8 addr val b

  -- The halfword at the program counter, when it lies in the RAM.
  unfoldable pub mem_fetch16_ram : ℕ → Bus W → Option ℕ
  mem_fetch16_ram pc b =
      if leb env.active_ram_base pc && ltb (pc + 1) (env.active_ram_base + env.active_ram_size)
      then some (load 2 b.ram (pc - env.active_ram_base))
      else none
