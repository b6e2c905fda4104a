-- ===== src/Dma/Copy.antt =====
-- A transfer of words from memory to memory by src/dma.c.
use picoemu.Base.{
  ℕ, zero, suc, ◌+◌, ◌*◌, ◌/◌, ◌^◌, ◌≤◌, ◌<◌, ◌≡◌, refl, ap, ◌∙◌, ◌⊎◌, inl, inr, bit_and, bit_or,
  Bool, true, false, not, ◌==◌, if◌then◌else◌, some, ==_iff, u32, arith,
}
use picoemu.Thumb.Flags.{test}
use picoemu.Dma.Channels.{
  Channel, Dma, System, DmaEnv, ctrl_bswap, ctrl_incr_write, ctrl_irq_quiet, ctrl_chain_to,
  transfer_one, transfer_loop, count_of, transfer_all, signal_done, store_final, run_channel,
  do_transfer, dma_do_transfer,
}
use picoemu.Dma.Registers.{dma_match}
use picoemu.Dma.Chains.{KeepsDma, Outside, IsOutside, run_channel-ctrl, run_channel-ch}

-- The window of addresses from `lo` up to `hi` lies outside of the controller's block and holds words that
-- neither the controller nor its interrupts change by themselves.
pub record IsCopyRam {W : Type 0} (env : DmaEnv W) (lo hi : ℕ) : Type 0 where
  pub bounded : hi < 2 ^ 32
  pub outside : (a : ℕ) → lo ≤ a → a + 4 ≤ hi → dma_match a ≡ false
  pub read_word : (a : ℕ) (m : System W) → (env.mem_read32 a m).0 < 2 ^ 32
  pub read_pure : (a : ℕ) (m : System W) → lo ≤ a → a + 4 ≤ hi → (env.mem_read32 a m).1 ≡ m
  pub read_self :
      (a v : ℕ) (m : System W)
      → lo ≤ a
      → a + 4 ≤ hi
      → v < 2 ^ 32
      → (env.mem_read32 a (env.mem_write32 a v m)).0 ≡ v
  pub read_other :
      (a b v : ℕ) (m : System W)
      → lo ≤ a
      → a + 4 ≤ hi
      → lo ≤ b
      → b + 4 ≤ hi
      → (a + 4 ≤ b) ⊎ (b + 4 ≤ a)
      → (env.mem_read32 b (env.mem_write32 a v m)).0 ≡ (env.mem_read32 b m).0
  pub read_dma :
      (a : ℕ) (d : Dma) (m : System W)
      → lo ≤ a
      → a + 4 ≤ hi
      → (env.mem_read32 a (record m { dma = d })).0 ≡ (env.mem_read32 a m).0
  pub read_signal :
      (a irq : ℕ) (m : System W)
      → lo ≤ a
      → a + 4 ≤ hi
      → (env.mem_read32 a (env.nvic_signal_rp2350_irq irq m)).0 ≡ (env.mem_read32 a m).0

module _ {W : Type 0} (env : DmaEnv W) (lo hi : ℕ) (ram : IsCopyRam env lo hi) where
  abbrev pub word_at : ℕ → System W → ℕ
  word_at a m = (env.mem_read32 a m).0

  -- What `n` turns with steps of 4 have done.
  pub record Copies (n src dst : ℕ) (m : System W) (out : ℕ × (ℕ × System W)) : Type 0 where
    pub from : out.0 ≡ src + 4 * n
    pub to : out.1.0 ≡ dst + 4 * n
    pub copied : (j : ℕ) → j < n → word_at (dst + 4 * j) out.1.1 ≡ word_at (src + 4 * j) m
    pub untouched :
        (b : ℕ)
        → lo ≤ b
        → b + 4 ≤ hi
        → (b + 4 ≤ dst) ⊎ (dst + 4 * n ≤ b)
        → word_at b out.1.1 ≡ word_at b m

  module _ (size : ℕ) (word : (size == 0) ≡ false) (word' : (size == 1) ≡ false) where
    one_word :
        (src dst : ℕ) (m : System W)
        → lo ≤ src
        → src + 4 ≤ hi
        → transfer_one env size false src dst m ≡ env.mem_write32 dst (word_at src m) m
    unfolding transfer_one
    one_word src dst m low high =
        rw (word, word') (ap (env.mem_write32 dst (word_at src m)) (ram.read_pure src m low high))

    copied_at :
        (n src dst : ℕ) (m : System W) (out : ℕ × (ℕ × System W))
        → lo ≤ src
        → src + 4 * suc n ≤ hi
        → lo ≤ dst
        → dst + 4 * suc n ≤ hi
        → (src + 4 * suc n ≤ dst) ⊎ (dst + 4 * suc n ≤ src)
        → Copies n (src + 4) (dst + 4) (env.mem_write32 dst (word_at src m) m) out
        → (j : ℕ) → j < suc n
        → word_at (dst + 4 * j) out.1.1 ≡ word_at (src + 4 * j) m
    copied_at n src dst m out ls hs ld hd apart rest zero h =
        ap (λ (a : ℕ). word_at a out.1.1) {x = dst + 4 * 0} {y = dst} (omega arith)
        ∙ rest.untouched dst ld (omega arith) (inl (omega arith))
        ∙ ram.read_self dst (word_at src m) m ld (omega arith) (ram.read_word src m)
        ∙ ap (λ (a : ℕ). word_at a m) {x = src} {y = src + 4 * 0} (omega arith)
    copied_at n src dst m out ls hs ld hd apart rest (suc j) h =
        ap (λ (a : ℕ). word_at a out.1.1) {x = dst + 4 * suc j} {y = dst + 4 + 4 * j} (omega arith)
        ∙ rest.copied j (omega arith)
        ∙ ram.read_other dst (src + 4 + 4 * j) (word_at src m) m ld (omega arith) (omega arith)
            (omega arith) (elim apart [ inl p ↦ inr (omega arith) | inr p ↦ inl (omega arith) ])
        ∙ ap (λ (a : ℕ). word_at a m) {x = src + 4 + 4 * j} {y = src + 4 * suc j} (omega arith)

    step_Copies :
        (n src dst : ℕ) (m : System W) (out : ℕ × (ℕ × System W))
        → lo ≤ src
        → src + 4 * suc n ≤ hi
        → lo ≤ dst
        → dst + 4 * suc n ≤ hi
        → (src + 4 * suc n ≤ dst) ⊎ (dst + 4 * suc n ≤ src)
        → Copies n (src + 4) (dst + 4) (env.mem_write32 dst (word_at src m) m) out
        → Copies (suc n) src dst m out
    step_Copies n src dst m out ls hs ld hd apart rest = record {
      from = rest.from ∙ omega arith;
      to = rest.to ∙ omega arith;
      copied = copied_at n src dst m out ls hs ld hd apart rest;
      untouched = λ b low high away.
          rest.untouched b low high
            (elim away [ inl p ↦ inl (omega arith) | inr p ↦ inr (omega arith) ])
          ∙ ram.read_other dst b (word_at src m) m ld (omega arith) low high
              (elim away [ inl p ↦ inr (omega arith) | inr p ↦ inl (omega arith) ]);
    }

    pub loop_Copies :
        (n src dst : ℕ) (m : System W)
        → lo ≤ src
        → src + 4 * n ≤ hi
        → lo ≤ dst
        → dst + 4 * n ≤ hi
        → (src + 4 * n ≤ dst) ⊎ (dst + 4 * n ≤ src)
        → Copies n src dst m (transfer_loop env n size false 4 4 src dst m)
    unfolding transfer_loop
    loop_Copies zero src dst m ls hs ld hd apart = record {
      from = omega arith;
      to = omega arith;
      copied = λ j h. absurd (omega arith);
      untouched = λ b low high away. refl;
    }
    loop_Copies (suc n) src dst m ls hs ld hd apart =
        let up : u32 (src + 4) ≡ src + 4 = omega (arith, ram.bounded) in
        let up' : u32 (dst + 4) ≡ dst + 4 = omega (arith, ram.bounded) in
        rw (one_word src dst m ls (omega arith), up, up')
          (step_Copies n src dst m _ ls hs ld hd apart (
            loop_Copies n (src + 4) (dst + 4) (env.mem_write32 dst (word_at src m) m) (omega arith)
              (omega arith) (omega arith) (omega arith)
              (elim apart [ inl h ↦ inl (omega arith) | inr h ↦ inr (omega arith) ])))

  -- What follows the loop leaves the memory.
  either_word :
      (b : Bool) (x y : System W) (a : ℕ)
      → word_at a x ≡ word_at a y
      → word_at a (if b then x else y) ≡ word_at a y
  either_word true x y a h = h
  either_word false x y a h = refl

  signal_word :
      (i a : ℕ) (m : System W) → lo ≤ a → a + 4 ≤ hi → word_at a (signal_done env i m) ≡ word_at a m
  unfolding signal_done
  signal_word i a m low high =
      let d = record m.dma { intr = bit_or m.dma.intr (1 * 2 ^ i) } in
      let m1 : System W = record m { dma = d } in
      let first = test m1.dma.inte0 (1 * 2 ^ i) in
      let m2 : System W = if first then env.nvic_signal_rp2350_irq 11 m1 else m1 in
      either_word (test m2.dma.inte1 (1 * 2 ^ i)) (env.nvic_signal_rp2350_irq 12 m2) m2 a
        (ram.read_signal a 12 m2 low high)
      ∙ either_word first (env.nvic_signal_rp2350_irq 11 m1) m1 a (ram.read_signal a 11 m1 low high)
      ∙ ram.read_dma a d m low high

  run_word :
      (i a : ℕ) (m : System W)
      → lo ≤ a
      → a + 4 ≤ hi
      → word_at a (run_channel env i m) ≡ word_at a (transfer_all env (m.dma.ch i) m).1.1
  unfolding run_channel store_final
  run_word i a m low high =
      let done = store_final env i (transfer_all env (m.dma.ch i) m) in
      either_word (not (test (done.dma.ch i).ctrl (ctrl_irq_quiet env.membus_rp2350_mode)))
        (signal_done env i done) done a (signal_word i a done low high)
      ∙ ram.read_dma a done.dma (transfer_all env (m.dma.ch i) m).1.1 low high

  -- An enabled channel that copies words upwards without swapping them, and is not chained.
  pub record IsWordCopy (i : ℕ) (c : Channel) : Type 0 where
    pub enabled : test c.ctrl 1 ≡ true
    pub words : bit_and c.ctrl (0x3 * 2 ^ 2) / 2 ^ 2 ≡ 2
    pub reads_up : test c.ctrl (1 * 2 ^ 4) ≡ true
    pub writes_up : test c.ctrl (ctrl_incr_write env.membus_rp2350_mode) ≡ true
    pub no_swap : test c.ctrl (ctrl_bswap env.membus_rp2350_mode) ≡ false
    pub unchained : ctrl_chain_to env.membus_rp2350_mode c.ctrl ≡ i

  -- How the call on that channel ends.
  pub record Copied (i n : ℕ) (m : System W) : Type 0 where
    pub out : System W
    pub ended : dma_do_transfer env i m ≡ some out
    pub source : (out.dma.ch i).read_addr ≡ (m.dma.ch i).read_addr + 4 * n
    pub target : (out.dma.ch i).write_addr ≡ (m.dma.ch i).write_addr + 4 * n
    pub nothing_left : (out.dma.ch i).trans_count ≡ 0
    pub copied :
        (j : ℕ)
        → j < n
        → word_at ((m.dma.ch i).write_addr + 4 * j) out ≡ word_at ((m.dma.ch i).read_addr + 4 * j) m
    pub untouched :
        (b : ℕ)
        → lo ≤ b
        → b + 4 ≤ hi
        → (b + 4 ≤ (m.dma.ch i).write_addr) ⊎ ((m.dma.ch i).write_addr + 4 * n ≤ b)
        → word_at b out ≡ word_at b m

  module _ (kept : KeepsDma env) (i : ℕ) (m : System W) (copy : IsWordCopy i (m.dma.ch i)) where
    window_Outside : (n a : ℕ) → lo ≤ a → a + 4 * n ≤ hi → Outside n 4 a
    unfolding Outside
    window_Outside zero a low high = refl
    window_Outside (suc n) a low high =
        let next : u32 (a + 4) ≡ a + 4 = omega (arith, ram.bounded) in
        (
          ram.outside a low (omega arith),
          rw next (window_Outside n (a + 4) (omega arith) (omega arith)),
        )

    channel-IsOutside :
        let c = m.dma.ch i in
        let n = count_of env c in
        lo ≤ c.read_addr
        → c.read_addr + 4 * n ≤ hi
        → lo ≤ c.write_addr
        → c.write_addr + 4 * n ≤ hi
        → IsOutside env c
    channel-IsOutside ls hs ld hd =
        let c = m.dma.ch i in
        record {
          reads =
              rw (copy.reads_up, copy.words) (window_Outside (count_of env c) c.read_addr ls hs);
          writes =
              rw (copy.writes_up, copy.words) (window_Outside (count_of env c) c.write_addr ld hd);
        }

    all_Copies :
        let c = m.dma.ch i in
        let n = count_of env c in
        lo ≤ c.read_addr
        → c.read_addr + 4 * n ≤ hi
        → lo ≤ c.write_addr
        → c.write_addr + 4 * n ≤ hi
        → (c.read_addr + 4 * n ≤ c.write_addr) ⊎ (c.write_addr + 4 * n ≤ c.read_addr)
        → Copies n c.read_addr c.write_addr m (transfer_all env c m)
    unfolding transfer_all
    all_Copies ls hs ld hd apart =
        let c = m.dma.ch i in
        rw (copy.words, copy.no_swap, copy.reads_up, copy.writes_up)
          (loop_Copies 2 refl refl (count_of env c) c.read_addr c.write_addr m ls hs ld hd apart)

    ends :
        IsOutside env (m.dma.ch i)
        → (count_of env (m.dma.ch i) == 0) ≡ false
        → dma_do_transfer env i m ≡ some (run_channel env i m)
    unfolding dma_do_transfer do_transfer
    ends o busy =
        let self : (i == i) ≡ true = (==_iff i i).1 refl in
        rw (copy.enabled, busy, run_channel-ctrl env kept i m i o, copy.unchained, self)

    final_read :
        (run_channel env i m).dma.ch i ≡ record ((transfer_all env (m.dma.ch i) m).1.1.dma.ch i) {
          read_addr = (transfer_all env (m.dma.ch i) m).0;
          write_addr = (transfer_all env (m.dma.ch i) m).1.0;
          trans_count = 0;
        }
    unfolding store_final
    final_read =
        let self : (i == i) ≡ true = (==_iff i i).1 refl in run_channel-ch env kept i m i ∙ rw self

    -- In memory of words, outside of the controller's block of addresses, that neither the controller nor
    -- its interrupts change by themselves, and where no access outside of that block and no interrupt
    -- changes the controller: a call on an enabled channel that copies words
    -- upwards on both sides, without swapping and chained to itself, with a count that is not 0 and with
    -- both blocks inside the memory and apart from each other, ends; the target block holds the words
    -- that the source block held, every word outside of the target is as it was, the channel's addresses
    -- stand behind the two blocks, and no transfers are left.
    pub dma_do_transfer-Copied :
        let c = m.dma.ch i in
        let n = count_of env c in
        0 < n
        → lo ≤ c.read_addr
        → c.read_addr + 4 * n ≤ hi
        → lo ≤ c.write_addr
        → c.write_addr + 4 * n ≤ hi
        → (c.read_addr + 4 * n ≤ c.write_addr) ⊎ (c.write_addr + 4 * n ≤ c.read_addr)
        → Copied i n m
    dma_do_transfer-Copied pos ls hs ld hd apart =
        let all = all_Copies ls hs ld hd apart in
        record {
          out = run_channel env i m;
          ended = ends (channel-IsOutside ls hs ld hd) (ground arith);
          source = ap (λ (c : Channel). c.read_addr) final_read ∙ all.from;
          target = ap (λ (c : Channel). c.write_addr) final_read ∙ all.to;
          nothing_left = ap (λ (c : Channel). c.trans_count) final_read;
          copied = λ j h.
              run_word i ((m.dma.ch i).write_addr + 4 * j) m (omega arith) (omega arith)
              ∙ all.copied j h;
          untouched = λ b low high away. run_word i b m low high ∙ all.untouched b low high away;
        }
