-- ===== src/Dma/Tests.antt =====
-- The theorems on the DMA controller at a concrete memory and concrete channels.
use picoemu.Base.{
  ℕ, ◌-◌, ◌%◌, ◌^◌, ◌<◌, ◌≡◌, refl, inl, inr, ◌==◌, ==_iff, Bool-cases, false, if◌then◌else◌,
  Option, none, some, not32, arith,
}
use picoemu.Base.Scan.{bit_and-le}
use picoemu.Thumb.State.{update}
use picoemu.Dma.Channels.{Channel, System, DmaEnv, dma_init}
use picoemu.Dma.Registers.{dma_match, dma_write32, write_global}
use picoemu.Dma.Chains.{KeepsDma, Outside, AllOutside, Ends, dma_do_transfer-Ends}
use picoemu.Dma.Copy.{IsCopyRam, IsWordCopy, Copied, dma_do_transfer-Copied}

-- Words by address; a byte and a halfword are cut from them.
abbrev words : DmaEnv (ℕ → ℕ)
words = record {
  membus_rp2350_mode = false;
  mem_read8 = λ a m. (m.world a % 2 ^ 8, m);
  mem_read16 = λ a m. (m.world a % 2 ^ 16, m);
  mem_read32 = λ a m. (m.world a % 2 ^ 32, m);
  mem_write8 = λ a v m. record m { world = update m.world a v };
  mem_write16 = λ a v m. record m { world = update m.world a v };
  mem_write32 = λ a v m. record m { world = update m.world a v };
  nvic_signal_rp2350_irq = λ irq m. m;
}

-- A bus that passes the writes of words in the controller's block on to its registers; a transfer that such
-- a write starts finds only the memory.
abbrev on_bus_of : Option (System (ℕ → ℕ)) → System (ℕ → ℕ) → System (ℕ → ℕ)
on_bus_of none m = m
on_bus_of (some out) m = out

abbrev bus : DmaEnv (ℕ → ℕ)
bus = record words {
  mem_write32 = λ a v m.
      if dma_match a
      then on_bus_of (dma_write32 words (a - 0x50000000) v m) m
      else words.mem_write32 a v m;
}

bus-KeepsDma : KeepsDma bus
bus-KeepsDma = record {
  read8 = λ a m h. refl;
  read16 = λ a m h. refl;
  read32 = λ a m h. refl;
  write8 = λ a v m h. refl;
  write16 = λ a v m h. refl;
  write32 = λ a v m h. rw h;
  signal = λ irq m. refl;
}

-- Channel 2 copies three words from 0x20000000 to 0x20000100; channels 5 and 6 form a ring.
abbrev channels : ℕ → Channel
channels i =
    if i == 2
    then record { read_addr = 0x20000000; write_addr = 0x20000100; trans_count = 3; ctrl = 0x1039 }
    else if i == 5
    then record { read_addr = 0x20000000; write_addr = 0x20000200; trans_count = 2; ctrl = 0x3001 }
    else if i == 6
    then record { read_addr = 0x20000000; write_addr = 0x20000204; trans_count = 1; ctrl = 0x2801 }
    else record { read_addr = 0; write_addr = 0; trans_count = 0; ctrl = 0 }

abbrev start_system : System (ℕ → ℕ)
start_system = record { dma = record (dma_init false) { ch = channels }; world = λ a. a }

-- A write of 5 to INTE0 reaches the controller.
inte0_written : (bus.mem_write32 0x50000404 5 start_system).dma.inte0 ≡ 5
unfolding dma_match dma_write32 write_global
inte0_written = refl

below_block : (a : ℕ) → a < 0x50000000 → dma_match a ≡ false
unfolding dma_match
below_block a h = ground (arith, bit_and-le a (not32 0x3000))

bus-IsCopyRam : IsCopyRam bus 0x20000000 0x20042000
bus-IsCopyRam = record {
  bounded = omega arith;
  outside = λ a low high. below_block a (omega arith);
  read_word = λ a m. omega arith;
  read_pure = λ a m low high. refl;
  read_self = λ a v m low high small. let h = below_block a (omega arith) in rw h (ground arith);
  read_other =
      λ a b v m la ha lb hb apart. let h = below_block a (omega arith) in rw h (ground arith);
  read_dma = λ a d m low high. refl;
  read_signal = λ a irq m low high. refl;
}

-- Of the channels only 2, 5 and 6 have something to do, all three in the memory.
channels-AllOutside : AllOutside bus bus-KeepsDma start_system
unfolding Outside dma_match
channels-AllOutside j h busy = elim (Bool-cases (j == 2)) [
  | inl e ↦
      let at : j ≡ 2 = (==_iff j 2).0 e in
      rw at (record { reads = (refl, (refl, (refl, refl))); writes = (refl, (refl, (refl, refl))) })
  | inr e ↦ elim (Bool-cases (j == 5)) [
    | inl f ↦
        let at : j ≡ 5 = (==_iff j 5).0 f in
        rw at (record { reads = (refl, (refl, refl)); writes = (refl, (refl, refl)) })
    | inr f ↦ elim (Bool-cases (j == 6)) [
      | inl g ↦
          let at : j ≡ 6 = (==_iff j 6).0 g in
          rw at (record { reads = (refl, refl); writes = (refl, refl) })
      | inr g ↦ absurd (ground arith)
    ]
  ]
]

dma_do_transfer-Ends_example : Ends bus bus-KeepsDma 17 5 start_system
dma_do_transfer-Ends_example =
    dma_do_transfer-Ends bus bus-KeepsDma 5 start_system (omega arith) channels-AllOutside

channel-IsWordCopy : IsWordCopy bus 0x20000000 0x20042000 bus-IsCopyRam 2 (channels 2)
channel-IsWordCopy = record {
  enabled = refl;
  words = refl;
  reads_up = refl;
  writes_up = refl;
  no_swap = refl;
  unchained = refl;
}

dma_do_transfer-Copied_example : Copied bus 0x20000000 0x20042000 bus-IsCopyRam 2 3 start_system
dma_do_transfer-Copied_example =
    dma_do_transfer-Copied bus 0x20000000 0x20042000 bus-IsCopyRam bus-KeepsDma 2 start_system
      channel-IsWordCopy (omega arith) (omega arith) (omega arith) (omega arith) (omega arith)
      (inl (omega arith))
