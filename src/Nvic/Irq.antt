-- ===== src/Nvic/Irq.antt =====
-- Interrupt requests of src/nvic.c: enable, pending and priority of the external interrupts, the choice
-- of the next one, and the signals of the devices.
use picoemu.Base.{
  ℕ, zero, suc, ◌+◌, ◌-◌, List, [], ◌∷◌, bit_and, bit_or, ◌&&◌, ◌||◌, ltb, leb, ◌==◌, if◌then◌else◌,
  ◌>>◌, u32, get_or,
}
use picoemu.Base.Scan.{ctz}
use picoemu.Thumb.State.{update}
use picoemu.Nvic.State.{NvicState, Ppb, on_nvic, nvic_bit_set, nvic_bit_clear}

-- NUM_EXTERNAL_IRQS_M33 is 64.
unfoldable pub nvic_get_exception_priority : ℕ → NvicState → ℕ
nvic_get_exception_priority vector_num ns =
    if (vector_num == 1) || ((vector_num == 2) || (vector_num == 3))
    then 0
    else if vector_num == 11
    then bit_and (ns.shpr2 >> 24) 0xC0
    else if vector_num == 14
    then bit_and (ns.shpr3 >> 16) 0xC0
    else if vector_num == 15
    then bit_and (ns.shpr3 >> 24) 0xC0
    else if leb 16 vector_num && ltb (vector_num - 16) 64
    then bit_and (ns.priority (vector_num - 16)) 0xC0
    else 0xFF

unfoldable pub nvic_enable_irq : ℕ → NvicState → NvicState
nvic_enable_irq irq ns =
    if ltb irq 64 then record ns { enable = nvic_bit_set ns.enable irq } else ns

unfoldable pub nvic_disable_irq : ℕ → NvicState → NvicState
nvic_disable_irq irq ns =
    if ltb irq 64 then record ns { enable = nvic_bit_clear ns.enable irq } else ns

unfoldable pub nvic_clear_pending : ℕ → NvicState → NvicState
nvic_clear_pending irq ns =
    if ltb irq 64 then record ns { pending = nvic_bit_clear ns.pending irq } else ns

-- The `for` that sets `priorities_nondefault`, over the first `n` interrupts.
unfoldable pub any_nondefault : (ℕ → ℕ) → ℕ → ℕ
any_nondefault priority zero = 0
any_nondefault priority (suc i) =
    let rest = any_nondefault priority i in if priority i == 0 then rest else 1

unfoldable pub nvic_set_priority : ℕ → ℕ → NvicState → NvicState
nvic_set_priority irq value ns =
    let priority = update ns.priority irq (bit_and value 0xC0) in
    if ltb irq 64
    then record ns { priority = priority; priorities_nondefault = any_nondefault priority 64 }
    else ns

-- `highest_priority_irq` and `highest_priority_value`.
abbrev pub Best : Type 0
Best = ℕ × ℕ

-- The body of the `while`: `irq` with its priority against the best so far.
unfoldable pub consider : (ℕ → ℕ) → ℕ → Best → Best
consider priority irq (best, value) =
    let prio = bit_and (priority irq) 0xC0 in
    if ltb prio value || ((prio == value) && ltb irq best) then (irq, prio) else (best, value)

-- The `while (bits)` for the word of interrupts from `base` on; a word has at most 32 bits.
unfoldable pub scan_bits : ℕ → (ℕ → ℕ) → ℕ → ℕ → Best → Best
scan_bits zero priority base bits best = best
scan_bits (suc fuel) priority base bits best =
    let considered = consider priority (base + ctz 32 bits) best in
    let rest = scan_bits fuel priority base (bit_and bits (bits - 1)) considered in
    if bits == 0 then best else rest

-- `words[i]`
abbrev pub requests : NvicState → ℕ → ℕ
requests ns i = bit_and (ns.pending i) (ns.enable i)

unfoldable pub nvic_get_pending_irq : NvicState → ℕ
nvic_get_pending_irq ns =
    let low = requests ns 0 in
    let high = requests ns 1 in
    let first = scan_bits 32 ns.priority 0 low (0xFFFFFFFF, 0xFF) in
    let second = scan_bits 32 ns.priority 32 high first in
    if bit_or low high == 0
    then 0xFFFFFFFF
    else if ns.priorities_nondefault == 0
    then (if low == 0 then 32 + ctz 32 high else ctz 32 low)
    else second.0

-- `rp2040_to_rp2350`
abbrev rp2040_to_rp2350 : List ℕ
rp2040_to_rp2350 =
    0 ∷ 1 ∷ 2 ∷ 3 ∷ 8 ∷ 14 ∷ 22 ∷ 15 ∷ 16 ∷ 17 ∷ 18 ∷ 10 ∷ 11 ∷ 21 ∷ 23 ∷ 25 ∷ 26 ∷ 30 ∷ 31 ∷ 32
    ∷ 33 ∷ 34 ∷ 35 ∷ 36 ∷ 37 ∷ 45 ∷ 46 ∷ 47 ∷ 48 ∷ 49 ∷ 50 ∷ 51 ∷ []

unfoldable pub nvic_rp2350_irq : ℕ → ℕ → ℕ
nvic_rp2350_irq membus_rp2350_mode irq =
    if (membus_rp2350_mode == 0) || leb 32 irq
    then irq
    else get_or rp2040_to_rp2350 (bit_and irq 31) 0

-- `irq_latency_pend` is the profiling of src/devtools.c, which does nothing when it is off.
module _ {W : Type 0} (corepool_wake_cores : W → W) (irq_latency_pend : ℕ → W → W) where
  abbrev pub wake : Ppb W → Ppb W
  wake p = record p { world = corepool_wake_cores p.world }

  unfoldable pub nvic_set_pending : ℕ → Ppb W → Ppb W
  nvic_set_pending irq p =
      if ltb irq 64
      then wake (on_nvic (λ ns. record ns { pending = nvic_bit_set ns.pending irq }) p)
      else p

  -- The line goes to both cores.
  abbrev pend_both : ℕ → (ℕ → NvicState) → (ℕ → NvicState)
  pend_both irq states c =
      if ltb c 2
      then record (states c) { pending = nvic_bit_set (states c).pending irq }
      else states c

  unfoldable pub nvic_signal_irq : ℕ → Ppb W → Ppb W
  nvic_signal_irq irq p =
      if ltb irq 64
      then record p {
        irq_signal_count = u32 (p.irq_signal_count + 1);
        last_irq_signal = irq;
        nvic_states = pend_both irq p.nvic_states;
        world = corepool_wake_cores (irq_latency_pend irq p.world);
      }
      else p

  unfoldable pub nvic_signal_rp2350_irq : ℕ → Ppb W → Ppb W
  nvic_signal_rp2350_irq irq p = nvic_signal_irq (nvic_rp2350_irq p.membus_rp2350_mode irq) p
