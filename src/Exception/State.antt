-- ===== src/Exception/State.antt =====
-- The state that exception entry and return of src/cpu.c work on: the globals `cpu`, `cores[ac]` of
-- the active core, the interrupt controller, and the memory behind it.
use picoemu.Base.{
  ℕ, ◌+◌, ◌-◌, ◌*◌, ◌&&◌, bit_and, bit_or, Bool, leb, ltb, ◌==◌, if◌then◌else◌, u32, not32,
}
use picoemu.Thumb.State.{Cpu}
use picoemu.Nvic.State.{Ppb, on_nvic, on_systick, nvic_bit_set, nvic_bit_clear}
use picoemu.Nvic.Irq.{nvic_set_pending, nvic_clear_pending}

pub record Core (W : Type 0) : Type 0 where
  pub cpu : Cpu
  pub ppb : Ppb W
  pub current_irq : ℕ
  pub exception_stack : ℕ → ℕ
  pub it_stack : ℕ → ℕ
  pub exception_depth : ℕ
  pub is_halted : ℕ

-- What entry and return call elsewhere: the memory bus, which passes some addresses on to the
-- interrupt controller, the exclusive monitor, the threads, the profiling, and the dump of the memory
-- pool at a lockup, which writes a file of the host.
pub record ExceptionEnv (W : Type 0) : Type 0 where
  pub mem_read32 : ℕ → Ppb W → ℕ × Ppb W
  pub mem_write32 : ℕ → ℕ → Ppb W → Ppb W
  pub arm_excl_clear : ℕ → W → W
  pub corepool_wake_cores : W → W
  pub irq_latency_pend : ℕ → W → W
  pub irq_latency_enter : ℕ → W → W
  pub dump_arena : Ppb W → Ppb W

-- `vector_num >= 16 && (vector_num - 16) < NUM_EXTERNAL_IRQS_M33`
abbrev is_external : ℕ → Bool
is_external vector_num = leb 16 vector_num && ltb (vector_num - 16) 64

-- `(xpsr & ~0x1FF) | (v & 0x1FF)`
abbrev pub with_ipsr : ℕ → ℕ → ℕ
with_ipsr xpsr v = bit_or (bit_and xpsr (not32 0x1FF)) (bit_and v 0x1FF)

module _ {W : Type 0} where
  abbrev pub on_ppb : (Ppb W → Ppb W) → Core W → Core W
  on_ppb f c = record c { ppb = f c.ppb }

  unfoldable pub set_iabr : ℕ → Ppb W → Ppb W
  set_iabr v p =
      if is_external v
      then on_nvic (λ ns. record ns { iabr = nvic_bit_set ns.iabr (v - 16) }) p
      else p

  unfoldable pub clear_iabr : ℕ → Ppb W → Ppb W
  clear_iabr v p =
      if is_external v
      then on_nvic (λ ns. record ns { iabr = nvic_bit_clear ns.iabr (v - 16) }) p
      else p

  -- The pending state of a vector: an external interrupt, SysTick (15) or PendSV (14).
  unfoldable pub clear_pending : ℕ → Ppb W → Ppb W
  clear_pending v p =
      if leb 16 v
      then on_nvic (nvic_clear_pending (v - 16)) p
      else if v == 15
      then on_systick (λ st. record st { pending = 0 }) p
      else if v == 14
      then on_nvic (λ ns. record ns { pendsv_pending = 0 }) p
      else p

  unfoldable pub set_pending_again : ExceptionEnv W → ℕ → Ppb W → Ppb W
  set_pending_again env v p =
      if leb 16 v
      then nvic_set_pending env.corepool_wake_cores env.irq_latency_pend (v - 16) p
      else if v == 15
      then on_systick (λ st. record st { pending = 1 }) p
      else if v == 14
      then on_nvic (λ ns. record ns { pendsv_pending = 1 }) p
      else p

  -- The address of a vector.
  abbrev pub vector_addr : ℕ → Ppb W → ℕ
  vector_addr v p = u32 (p.vtor + u32 (v * 4))
