-- ===== src/Membus/Interface.antt =====
-- The RAM of src/membus.c as the memory that the block transfers of src/instructions.c need.
use picoemu.Base.{
  ℕ, ◌+◌, ◌-◌, ◌*◌, ◌/◌, ◌%◌, ◌^◌, ◌||◌, ◌≤◌, ◌<◌, ◌≡◌, refl, sym, ap, ◌∙◌, inl, inr, true, false,
  arith,
}
use picoemu.Thumb.State.{Env}
use picoemu.Thumb.Ram.{IsRam}
use picoemu.Membus.Bytes.{load, store, load-store, load-other, store-byte, load_two}
use picoemu.Membus.Access.{
  Bus, BusEnv, in_rom, in_xip, sram_alias_translate, in_ram, mem_read32, mem_read16, mem_read8,
  mem_write32, mem_write16, mem_write8,
}

-- The RAM lies where the RP2040 has it, and no debugger and no statistics are at work.
pub record IsPlain {W : Type 0} (env : BusEnv W) : Type 0 where
  pub base : env.active_ram_base ≡ 0x20000000
  pub size : env.active_ram_size ≤ 520 * 1024
  pub no_debugger : (a n : ℕ) (w : W) → env.gdb_check_watchpoint_read a n w ≡ w
  pub no_statistics : (a v : ℕ) (w : W) → env.record_read a v w ≡ w

module _ {W : Type 0} (env : BusEnv W) (plain : IsPlain env) where
  abbrev pub top : ℕ
  top = 0x20000000 + env.active_ram_size

  module _ (a : ℕ) (low : 0x20000000 ≤ a) (high : a < top) where
    not_alias : sram_alias_translate a ≡ a
    unfolding sram_alias_translate
    not_alias = ground (arith, plain.size)

    inside : in_ram env a ≡ true
    inside = ground (arith, plain.base)

    read32 : (b : Bus W) → mem_read32 env a b ≡ (load 4 b.ram (a - 0x20000000), b)
    unfolding mem_read32
    read32 b =
        rw (plain.no_debugger a 4 b.world, not_alias, inside, plain.base, plain.no_statistics) refl

    write32-ram :
        (v : ℕ) (b : Bus W) → (mem_write32 env a v b).ram ≡ store 4 (a - 0x20000000) v b.ram
    unfolding mem_write32
    write32-ram v b = rw (not_alias, inside, plain.base) refl

    not_xip : (in_rom env a || in_xip env a) ≡ false
    not_xip = ground arith

    read8 : (b : Bus W) → (mem_read8 env a b).0 ≡ b.ram (a - 0x20000000)
    unfolding mem_read8
    read8 b = rw (not_alias, not_xip, inside, plain.base) refl

    read16 : (b : Bus W) → (mem_read16 env a b).0 ≡ load 2 b.ram (a - 0x20000000)
    unfolding mem_read16
    read16 b = rw (not_alias, not_xip, inside, plain.base) refl

  -- The handlers' environment with the accesses of the bus; the rest is given.
  abbrev pub on_bus : Env (Bus W) → Env (Bus W)
  on_bus rest = record rest {
    mem_read8 = mem_read8 env;
    mem_read16 = mem_read16 env;
    mem_read32 = mem_read32 env;
    mem_write8 = mem_write8 env;
    mem_write16 = mem_write16 env;
    mem_write32 = mem_write32 env;
  }

  read-write :
      (a c v : ℕ) (b : Bus W)
      → 0x20000000 ≤ a
      → a + 4 ≤ top
      → 0x20000000 ≤ c
      → c + 4 ≤ top
      → (mem_read32 env c (mem_write32 env a v b)).0
        ≡ load 4 (store 4 (a - 0x20000000) v b.ram) (c - 0x20000000)
  read-write a c v b la ha lc hc =
      ap (λ (t : ℕ × Bus W). t.0) (read32 c lc (omega arith) (mem_write32 env a v b))
      ∙ ap (λ (t : ℕ → ℕ). load 4 t (c - 0x20000000)) (write32-ram a la (omega arith) v b)

  -- Where the RAM of at most 520 KiB lies at 0x20000000 and neither the debugger nor the statistics act
  -- on a read, whatever stands behind the other addresses: in the window of the RAM, aligned or not, a
  -- read of a word changes nothing and returns the word last written there, and a write leaves every
  -- word that it does not overlap.
  pub on_bus-IsRam : (rest : Env (Bus W)) → IsRam (on_bus rest) 0x20000000 top
  on_bus-IsRam rest = record {
    bounded = omega (arith, plain.size);
    read_pure = λ a b low high. ap (λ (t : ℕ × Bus W). t.1) (read32 a low (omega arith) b);
    read_self = λ a v b low high word.
        read-write a a v b low high low high ∙ load-store 4 (a - 0x20000000) v b.ram (omega arith);
    read_other = λ a c v b la ha lc hc apart.
        read-write a c v b la ha lc hc
        ∙ load-other 4 4 (a - 0x20000000) (c - 0x20000000) v b.ram
            (elim apart [ inl h ↦ inl (omega arith) | inr h ↦ inr (omega arith) ])
        ∙ sym (ap (λ (t : ℕ × Bus W). t.0) (read32 c lc (omega arith) b));
  }

  -- Where the RAM of at most 520 KiB lies at 0x20000000 and neither the debugger nor the statistics act
  -- on a read, after a 32-bit word is written in the window of the RAM: each of its four addresses
  -- reads as a byte of it, from the lowest on, and its two halves read as halfwords.
  pub mem_read8-mem_write32 :
      (a k v : ℕ) (b : Bus W)
      → 0x20000000 ≤ a
      → a + 4 ≤ top
      → k < 4
      → v < 2 ^ 32
      → let out = mem_write32 env a v b in
        ((mem_read8 env (a + k) out).0 ≡ v / 256 ^ k % 256)
        × ((mem_read16 env a out).0 ≡ v % 2 ^ 16)
        × ((mem_read16 env (a + 2) out).0 ≡ v / 2 ^ 16)
  mem_read8-mem_write32 a k v b low high inside_word word =
      let i = a - 0x20000000 in
      let written = write32-ram a low (omega arith) v b in
      let out = (mem_write32 env a v b).ram in
      let byte : (j x : ℕ) → j < 4 → x ≡ i + j → out x ≡ v / 256 ^ j % 256 = λ j x h e.
        ap (λ (t : ℕ → ℕ). t x) written ∙ ap (store 4 i v b.ram) e ∙ store-byte 4 i v j b.ram h in
      (
        read8 (a + k) (omega arith) (omega arith) (mem_write32 env a v b)
            ∙ byte k (a + k - 0x20000000) inside_word (omega arith),
        read16 a low (omega arith) (mem_write32 env a v b)
            ∙ omega (
              arith,
              load_two out i,
              byte 0 i (omega arith) (omega arith),
              byte 1 (i + 1) (omega arith) (omega arith),
            ),
        read16 (a + 2) (omega arith) (omega arith) (mem_write32 env a v b)
            ∙ omega (
              arith,
              load_two out (a + 2 - 0x20000000),
              byte 2 (a + 2 - 0x20000000) (omega arith) (omega arith),
              byte 3 (a + 2 - 0x20000000 + 1) (omega arith) (omega arith),
            ),
      )
