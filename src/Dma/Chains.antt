-- ===== src/Dma/Chains.antt =====
-- The chains of transfers of src/dma.c: which channels they change, and how long they are.
use picoemu.Base.{
  ℕ, zero, suc, ◌+◌, ◌*◌, ◌^◌, ◌≤◌, ◌<◌, ◌≡◌, refl, sym, ap, u32, ◌∙◌, ◌≢◌, ◌⊎◌, inl, inr, bit_or,
  Bool, true, false, not, ◌&&◌, ◌==◌, ltb, Bool-cases, if◌then◌else◌, some, ==_iff, arith,
}
use picoemu.Base.Scan.{bit_and-le}
use picoemu.Thumb.Flags.{test}
use picoemu.Dma.Registers.{dma_match}
use picoemu.Dma.Channels.{
  Channel, Dma, System, DmaEnv, dma_num_channels, ctrl_chain_to, ctrl_irq_quiet, transfer_one,
  transfer_loop, count_of, transfer_all, signal_done, store_final, run_channel, do_transfer,
  read_step, write_step,
}

-- No access outside of the controller's block of addresses changes the controller, and no signal does.
pub record KeepsDma {W : Type 0} (env : DmaEnv W) : Type 0 where
  pub read8 : (a : ℕ) (m : System W) → dma_match a ≡ false → (env.mem_read8 a m).1.dma ≡ m.dma
  pub read16 : (a : ℕ) (m : System W) → dma_match a ≡ false → (env.mem_read16 a m).1.dma ≡ m.dma
  pub read32 : (a : ℕ) (m : System W) → dma_match a ≡ false → (env.mem_read32 a m).1.dma ≡ m.dma
  pub write8 : (a v : ℕ) (m : System W) → dma_match a ≡ false → (env.mem_write8 a v m).dma ≡ m.dma
  pub write16 : (a v : ℕ) (m : System W) → dma_match a ≡ false → (env.mem_write16 a v m).dma ≡ m.dma
  pub write32 : (a v : ℕ) (m : System W) → dma_match a ≡ false → (env.mem_write32 a v m).dma ≡ m.dma
  pub signal : (irq : ℕ) (m : System W) → (env.nvic_signal_rp2350_irq irq m).dma ≡ m.dma

-- The addresses of `n` turns from `a` on, `step` apart, lie outside of the controller's block.
unfoldable pub Outside : ℕ → ℕ → ℕ → Type 0
Outside zero step a = true ≡ true
Outside (suc n) step a = (dma_match a ≡ false) × Outside n step (u32 (a + step))

-- Those that a channel reads and writes do.
pub record IsOutside {W : Type 0} (env : DmaEnv W) (c : Channel) : Type 0 where
  pub reads : Outside (count_of env c) (read_step c) c.read_addr
  pub writes : Outside (count_of env c) (write_step env c) c.write_addr

-- How many channels below `n` have transfers left.
abbrev pub armed : ℕ → (ℕ → ℕ) → ℕ
armed zero f = 0
armed (suc n) f = armed n f + (if f n == 0 then 0 else 1)

armed-le : (n : ℕ) (f : ℕ → ℕ) → armed n f ≤ n
armed-le zero f = omega arith
armed-le (suc n) f = ground (arith, armed-le n f)

-- A channel that is done counts no longer.
armed_above :
    (n i : ℕ) (f g : ℕ → ℕ) → n ≤ i → ((j : ℕ) → i ≢ j → g j ≡ f j) → armed n g ≡ armed n f
armed_above zero i f g h same = refl
armed_above (suc n) i f g h same =
    let e = same n (λ p. absurd (omega arith)) in rw (armed_above n i f g (omega arith) same, e)

armed_less :
    (n i : ℕ) (f g : ℕ → ℕ)
    → i < n
    → f i ≢ 0
    → g i ≡ 0
    → ((j : ℕ) → i ≢ j → g j ≡ f j)
    → armed n g + 1 ≡ armed n f
armed_less zero i f g h ne z same = absurd (omega arith)
armed_less (suc n) i f g h ne z same = elim (Bool-cases (i == n)) [
  | inl e ↦
      let last : i ≡ n = (==_iff i n).0 e in
      let rest = armed_above n i f g (omega arith) same in ground (arith, ap f last, ap g last)
  | inr e ↦
      let rest = armed_less n i f g (ground arith) ne z same in
      let at = same n (λ p. ground arith) in ground arith
]

module _ {W : Type 0} (env : DmaEnv W) (kept : KeepsDma env) where
  either-dma :
      (b : Bool) (x y : System W) (d : Dma) → x.dma ≡ d → y.dma ≡ d → (if b then x else y).dma ≡ d
  either-dma true x y d p q = p
  either-dma false x y d p q = q

  one-dma :
      (size : ℕ) (bswap : Bool) (src dst : ℕ) (m : System W)
      → dma_match src ≡ false
      → dma_match dst ≡ false
      → (transfer_one env size bswap src dst m).dma ≡ m.dma
  unfolding transfer_one
  one-dma size bswap src dst m from to =
      either-dma (size == 0) _ _ m.dma (kept.write8 dst _ _ to ∙ kept.read8 src m from) (
        either-dma (size == 1) _ _ m.dma (kept.write16 dst _ _ to ∙ kept.read16 src m from)
          (kept.write32 dst _ _ to ∙ kept.read32 src m from))

  loop-dma :
      (left size : ℕ) (bswap : Bool) (sr sw src dst : ℕ) (m : System W)
      → Outside left sr src
      → Outside left sw dst
      → (transfer_loop env left size bswap sr sw src dst m).1.1.dma ≡ m.dma
  unfolding transfer_loop Outside
  loop-dma zero size bswap sr sw src dst m from to = refl
  loop-dma (suc left) size bswap sr sw src dst m from to =
      loop-dma left size bswap sr sw _ _ (transfer_one env size bswap src dst m) from.1 to.1
      ∙ one-dma size bswap src dst m from.0 to.0

  all-dma : (c : Channel) (m : System W) → IsOutside env c → (transfer_all env c m).1.1.dma ≡ m.dma
  unfolding transfer_all
  all-dma c m o = loop-dma (count_of env c) _ _ _ _ c.read_addr c.write_addr m o.reads o.writes

  signal-ch : (i : ℕ) (m : System W) (j : ℕ) → (signal_done env i m).dma.ch j ≡ m.dma.ch j
  unfolding signal_done
  signal-ch i m j =
      let m1 : System W = record m {
        dma = record m.dma { intr = bit_or m.dma.intr (1 * 2 ^ i) };
      } in
      let first = test m1.dma.inte0 (1 * 2 ^ i) in
      let m2 : System W = if first then env.nvic_signal_rp2350_irq 11 m1 else m1 in
      let p =
        either-dma first (env.nvic_signal_rp2350_irq 11 m1) m1 m1.dma (kept.signal 11 m1) refl in
      ap (λ (d : Dma). d.ch j)
        (either-dma (test m2.dma.inte1 (1 * 2 ^ i)) (env.nvic_signal_rp2350_irq 12 m2) m2 m1.dma
          (kept.signal 12 m2 ∙ p) p)

  final-count :
      (i j : ℕ) (out : ℕ × (ℕ × System W))
      → ((store_final env i out).dma.ch j).trans_count
        ≡ (if i == j then 0 else (out.1.1.dma.ch j).trans_count)
  unfolding store_final
  final-count i j out = ground arith

  final-ctrl :
      (i j : ℕ) (out : ℕ × (ℕ × System W))
      → ((store_final env i out).dma.ch j).ctrl ≡ (out.1.1.dma.ch j).ctrl
  unfolding store_final
  final-ctrl i j out = elim (Bool-cases (i == j)) [
    | inl e ↦ let same : i ≡ j = (==_iff i j).0 e in rw same (ground arith)
    | inr e ↦ rw e
  ]

  either-ch :
      (b : Bool) (x y : System W) (j : ℕ)
      → x.dma.ch j ≡ y.dma.ch j
      → (if b then x else y).dma.ch j ≡ y.dma.ch j
  either-ch true x y j h = h
  either-ch false x y j h = refl

  pub run_channel-ch :
      (i : ℕ) (m : System W) (j : ℕ)
      → (run_channel env i m).dma.ch j
        ≡ (store_final env i (transfer_all env (m.dma.ch i) m)).dma.ch j
  unfolding run_channel
  run_channel-ch i m j =
      let done = store_final env i (transfer_all env (m.dma.ch i) m) in
      either-ch (not (test (done.dma.ch i).ctrl (ctrl_irq_quiet env.membus_rp2350_mode)))
        (signal_done env i done) done j (signal-ch i done j)

  -- What a run does to the channels: the one that ran has no transfers left.
  pub run_channel-count :
      (i : ℕ) (m : System W) (j : ℕ)
      → IsOutside env (m.dma.ch i)
      → ((run_channel env i m).dma.ch j).trans_count
        ≡ (if i == j then 0 else (m.dma.ch j).trans_count)
  run_channel-count i m j o =
      ap (λ (c : Channel). c.trans_count) (run_channel-ch i m j)
      ∙ final-count i j (transfer_all env (m.dma.ch i) m)
      ∙ ap (λ (d : Dma). if i == j then 0 else (d.ch j).trans_count) (all-dma (m.dma.ch i) m o)

  pub run_channel-ctrl :
      (i : ℕ) (m : System W) (j : ℕ)
      → IsOutside env (m.dma.ch i)
      → ((run_channel env i m).dma.ch j).ctrl ≡ (m.dma.ch j).ctrl
  run_channel-ctrl i m j o =
      ap (λ (c : Channel). c.ctrl) (run_channel-ch i m j)
      ∙ final-ctrl i j (transfer_all env (m.dma.ch i) m)
      ∙ ap (λ (d : Dma). (d.ch j).ctrl) (all-dma (m.dma.ch i) m o)

  -- The other channels are as they were.
  run_channel-other :
      (i : ℕ) (m : System W) (j : ℕ)
      → IsOutside env (m.dma.ch i)
      → (i == j) ≡ false
      → (run_channel env i m).dma.ch j ≡ m.dma.ch j
  unfolding store_final
  run_channel-other i m j o ne =
      run_channel-ch i m j ∙ rw ne (ap (λ (d : Dma). d.ch j) (all-dma (m.dma.ch i) m o))

  abbrev counts : System W → ℕ → ℕ
  counts m j = (m.dma.ch j).trans_count

  -- Whether the channel has something to do.
  abbrev pub ready : ℕ → System W → Bool
  ready i m = test (m.dma.ch i).ctrl 1 && not (count_of env (m.dma.ch i) == 0)

  -- How a call on channel `i` with this fuel ends.
  pub record Ends (fuel i : ℕ) (m : System W) : Type 0 where
    pub out : System W
    pub ended : do_transfer env fuel i m ≡ some out
    pub started : counts out i ≡ (if ready i m then 0 else counts m i)
    pub finished : (j : ℕ) → (counts out j ≡ counts m j) ⊎ (counts out j ≡ 0)
    pub kept_ctrl : (j : ℕ) → (out.dma.ch j).ctrl ≡ (m.dma.ch j).ctrl

  count-ne : (c : Channel) → (count_of env c == 0) ≡ false → c.trans_count ≢ 0
  count-ne c h e = ground (arith, bit_and-le c.trans_count 0x0FFFFFFF)

  fewer :
      (i : ℕ) (m : System W)
      → i < 16
      → IsOutside env (m.dma.ch i)
      → (count_of env (m.dma.ch i) == 0) ≡ false
      → armed 16 (counts (run_channel env i m)) + 1 ≡ armed 16 (counts m)
  fewer i m h o busy =
      armed_less 16 i (counts m) (counts (run_channel env i m)) h (count-ne (m.dma.ch i) busy)
        (run_channel-count i m i o ∙ ground arith)
        (λ j ne. run_channel-count i m j o ∙ ground arith)

  run_count_self :
      (i : ℕ) (m : System W) → IsOutside env (m.dma.ch i) → counts (run_channel env i m) i ≡ 0
  run_count_self i m o = run_channel-count i m i o ∙ ground arith

  run_finished :
      (i : ℕ) (m : System W) (j : ℕ)
      → IsOutside env (m.dma.ch i)
      → (counts (run_channel env i m) j ≡ counts m j) ⊎ (counts (run_channel env i m) j ≡ 0)
  run_finished i m j o = elim (Bool-cases (i == j)) [
    | inl e ↦ inr (run_channel-count i m j o ∙ rw e)
    | inr e ↦ inl (run_channel-count i m j o ∙ rw e)
  ]

  later_finished : {a b c : ℕ} → (b ≡ c) ⊎ (b ≡ 0) → (a ≡ b) ⊎ (a ≡ 0) → (a ≡ c) ⊎ (a ≡ 0)
  later_finished before (inr z) = inr z
  later_finished (inl e) (inl f) = inl (f ∙ e)
  later_finished (inr z) (inl f) = inr (f ∙ z)

  stays_zero : {a b : ℕ} → b ≡ 0 → (a ≡ b) ⊎ (a ≡ 0) → a ≡ 0
  stays_zero z (inl e) = e ∙ z
  stays_zero z (inr e) = e

  -- One turn: nothing to do, a run at the end of the chain, or a run and the rest of the chain.
  module _ (fuel i : ℕ) (m : System W) where
    abbrev ran : System W
    ran = run_channel env i m

    abbrev next : ℕ
    next = ctrl_chain_to env.membus_rp2350_mode (ran.dma.ch i).ctrl

    abbrev chained : Bool
    chained = not (next == i) && ltb next dma_num_channels

    off-Ends : test (m.dma.ch i).ctrl 1 ≡ false → Ends (suc fuel) i m
    unfolding do_transfer
    off-Ends off = record {
      out = m;
      ended = rw off;
      started = rw off;
      finished = λ j. inl refl;
      kept_ctrl = λ j. refl;
    }

    module _ (on : test (m.dma.ch i).ctrl 1 ≡ true) where
      idle-Ends : (count_of env (m.dma.ch i) == 0) ≡ true → Ends (suc fuel) i m
      unfolding do_transfer
      idle-Ends idle = record {
        out = m;
        ended = rw (on, idle);
        started = rw (on, idle);
        finished = λ j. inl refl;
        kept_ctrl = λ j. refl;
      }

      module _ (busy : (count_of env (m.dma.ch i) == 0) ≡ false)
          (o : IsOutside env (m.dma.ch i)) where
        last-Ends : chained ≡ false → Ends (suc fuel) i m
        unfolding do_transfer
        last-Ends last = record {
          out = ran;
          ended = rw (on, busy, last);
          started = rw (on, busy) (run_count_self i m o);
          finished = λ j. run_finished i m j o;
          kept_ctrl = λ j. run_channel-ctrl i m j o;
        }

        chain-Ends : chained ≡ true → Ends fuel next ran → Ends (suc fuel) i m
        unfolding do_transfer
        chain-Ends more rest = record {
          out = rest.out;
          ended = rw (on, busy, more) rest.ended;
          started = rw (on, busy) (stays_zero (run_count_self i m o) (rest.finished i));
          finished = λ j. later_finished (run_finished i m j o) (rest.finished j);
          kept_ctrl = λ j. rest.kept_ctrl j ∙ run_channel-ctrl i m j o;
        }

  next-lt : (i n : ℕ) → (not (n == i) && ltb n dma_num_channels) ≡ true → n < 16
  next-lt i n h = ground arith

  -- Every channel that has something to do stays outside of the controller's block.
  abbrev pub AllOutside : System W → Type 0
  AllOutside m = (j : ℕ) → j < 16 → ready j m ≡ true → IsOutside env (m.dma.ch j)

  not_ready : (c : Channel) → c.trans_count ≡ 0 → (count_of env c == 0) ≡ true
  not_ready c h = ground (arith, bit_and-le c.trans_count 0x0FFFFFFF)

  run_channel-AllOutside :
      (i : ℕ) (m : System W)
      → IsOutside env (m.dma.ch i)
      → AllOutside m
      → AllOutside (run_channel env i m)
  run_channel-AllOutside i m o all j h busy = elim (Bool-cases (i == j)) [
    | inl e ↦
        let same : i ≡ j = (==_iff i j).0 e in
        let ran : System W = run_channel env i m in
        let done = not_ready (ran.dma.ch j) (run_channel-count i m j o ∙ rw e) in
        absurd (ground arith)
    | inr e ↦
        let same = run_channel-other i m j o e in
        rw same (
          all j h
            (ap (λ (c : Channel). test c.ctrl 1 && not (count_of env c == 0)) (sym same) ∙ busy))
  ]

  do_transfer-Ends :
      (fuel i : ℕ) (m : System W)
      → i < 16
      → armed 16 (counts m) < fuel
      → AllOutside m
      → Ends fuel i m
  do_transfer-Ends zero i m h room all = absurd (omega arith)
  do_transfer-Ends (suc fuel) i m h room all = elim (Bool-cases (test (m.dma.ch i).ctrl 1)) [
    | inr off ↦ off-Ends fuel i m off
    | inl on ↦ elim (Bool-cases (count_of env (m.dma.ch i) == 0)) [
      | inl idle ↦ idle-Ends fuel i m on idle
      | inr busy ↦
          let o = all i h (rw (on, busy)) in
          elim (Bool-cases (chained fuel i m)) [
            | inr last ↦ last-Ends fuel i m on busy o last
            | inl more ↦
                let less = fewer i m h o busy in
                chain-Ends fuel i m on busy o more (
                  do_transfer-Ends fuel (next fuel i m) (run_channel env i m)
                    (next-lt i (next fuel i m) more) (omega arith)
                    (run_channel-AllOutside i m o all))
          ]
    ]
  ]

  -- Where no access outside of the controller's block of addresses and no interrupt changes the
  -- controller, and no enabled channel with transfers left reads or writes in that block: a call on any of
  -- the 16 channels ends, however the channels are chained; a channel that was enabled with transfers
  -- left has none left, and otherwise its count is as it was; every channel's count is as it was or 0,
  -- and every channel has its CTRL.
  pub dma_do_transfer-Ends : (i : ℕ) (m : System W) → i < 16 → AllOutside m → Ends 17 i m
  dma_do_transfer-Ends i m h all =
      do_transfer-Ends 17 i m h (omega (arith, armed-le 16 (counts m))) all
