-- ===== src/Nvic/Writes.antt =====
-- Writes to the registers of src/nvic.c.
use picoemu.Base.{
  ℕ, ◌-◌, bit_and, bit_or, Bool, not, ◌&&◌, ltb, leb, ◌==◌, if◌then◌else◌, not32, ◌<<◌, ◌>>◌,
}
use picoemu.Thumb.State.{update}
use picoemu.Nvic.State.{NvicState, SystickState, MpuState, SauState, Ppb, on_nvic, on_systick}
use picoemu.Nvic.Irq.{any_nondefault, nvic_signal_irq, wake}
use picoemu.Nvic.Registers.{
  word_of, group, is_ipr, unpack_priorities, mpu_region, is_region_register,
}

-- The flag of the fast path after a write of IPR: only the effective bits count.
unfoldable pub write_ipr : ℕ → ℕ → NvicState → NvicState
write_ipr offset val ns =
    let priority = unpack_priorities 4 0 ns.priority offset val in
    record ns {
      priority = priority;
      priorities_nondefault = any_nondefault (λ i. bit_and (priority i) 0xC0) 64;
    }

-- ISER, ICER, ISPR, ICPR and IPR.
unfoldable pub write_irqs : ℕ → ℕ → NvicState → NvicState
write_irqs addr val ns =
    let e = group 0xE000E100 addr in
    let d = group 0xE000E180 addr in
    let s = group 0xE000E200 addr in
    let c = group 0xE000E280 addr in
    if word_of 0xE000E100 addr
    then record ns { enable = update ns.enable e (bit_or (ns.enable e) val) }
    else if word_of 0xE000E180 addr
    then record ns { enable = update ns.enable d (bit_and (ns.enable d) (not32 val)) }
    else if word_of 0xE000E200 addr
    then record ns { pending = update ns.pending s (bit_or (ns.pending s) val) }
    else if word_of 0xE000E280 addr
    then record ns { pending = update ns.pending c (bit_and (ns.pending c) (not32 val)) }
    else if is_ipr addr
    then write_ipr (group 0xE000E400 addr) val ns
    else ns

abbrev pub has_bit : ℕ → ℕ → Bool
has_bit val i = not (bit_and val (1 << i) == 0)

unfoldable pub write_mpu : ℕ → ℕ → MpuState → MpuState
write_mpu addr val mpu =
    let rbar = mpu_region (addr - 0xE000ED9C) mpu.rnr in
    let rlar = mpu_region (addr - 0xE000EDA0) mpu.rnr in
    if addr == 0xE000ED94
    then record mpu { ctrl = bit_and val 7 }
    else if addr == 0xE000ED98
    then record mpu { rnr = bit_and val 7 }
    else if is_region_register 0xE000ED9C addr
    then record mpu { rbar = update mpu.rbar rbar (bit_and val 0xFFFFFF1F) }
    else if is_region_register 0xE000EDA0 addr
    then record mpu { rlar = update mpu.rlar rlar (bit_and val 0xFFFFFF3F) }
    else if addr == 0xE000EDC0
    then record mpu { mair = update mpu.mair 0 val }
    else if addr == 0xE000EDC4
    then record mpu { mair = update mpu.mair 1 val }
    else mpu

unfoldable pub write_sau : ℕ → ℕ → SauState → SauState
write_sau addr val sau =
    let region = bit_and sau.rnr 7 in
    if addr == 0xE000EDD0
    then record sau { ctrl = bit_and val 3 }
    else if addr == 0xE000EDD8
    then record sau { rnr = bit_and val 7 }
    else if addr == 0xE000EDDC
    then record sau { rbar = update sau.rbar region (bit_and val 0xFFFFFFE0) }
    else if addr == 0xE000EDE0
    then record sau { rlar = update sau.rlar region (bit_and val 0xFFFFFFE3) }
    else sau

-- SHPR1, SHCSR and the fault registers, which only the RP2350 has.
unfoldable pub write_faults : ℕ → ℕ → NvicState → NvicState
write_faults addr val ns =
    if addr == 0xE000ED18
    then record ns { shpr1 = bit_and val 0x00C0C0C0 }
    else if addr == 0xE000ED24
    then record ns {
      pendsv_pending = if has_bit val 15 then 1 else ns.pendsv_pending;
      shcsr = bit_or (bit_and ns.shcsr (not32 0x00070000)) (bit_and val 0x00070000);
    }
    else if addr == 0xE000ED28
    then record ns { cfsr = bit_and ns.cfsr (not32 val) }
    else if addr == 0xE000ED2C
    then record ns { hfsr = bit_and ns.hfsr (not32 val) }
    else if addr == 0xE000ED34
    then record ns { mmfar = val }
    else if addr == 0xE000ED38
    then record ns { bfar = val }
    else ns

unfoldable pub write_systick : ℕ → ℕ → SystickState → SystickState
write_systick addr val st =
    if addr == 0xE000E010
    then record st { csr = bit_or (bit_and st.csr (not32 7)) (bit_and val 7) }
    else if addr == 0xE000E014
    then record st { rvr = bit_and val 0x00FFFFFF; zero_fired = 0 }
    else if addr == 0xE000E018
    then record st { cvr = 0; csr = bit_and st.csr (not32 (1 << 16)) }
    else st

module _ {W : Type 0} (corepool_wake_cores : W → W) (irq_latency_pend : ℕ → W → W) where
  abbrev pub wake_if : Bool → Ppb W → Ppb W
  wake_if test p = if test then wake corepool_wake_cores irq_latency_pend p else p

  -- The four bits are tested in this order.
  unfoldable pub write_icsr : ℕ → Ppb W → Ppb W
  write_icsr val p =
      let q1 = if has_bit val 29 then on_nvic (λ ns. record ns { pendsv_pending = 0 }) p else p in
      let q2 = if has_bit val 31 then on_systick (λ st. record st { pending = 0 }) q1 else q1 in
      let q3 = if has_bit val 28 then on_nvic (λ ns. record ns { pendsv_pending = 1 }) q2 else q2 in
      let q4 = wake_if (has_bit val 28) q3 in
      let q5 = if has_bit val 30 then on_systick (λ st. record st { pending = 1 }) q4 else q4 in
      wake_if (has_bit val 30) q5

  unfoldable pub write_aircr : ℕ → Ppb W → Ppb W
  write_aircr val p =
      if (val >> 16 == 0x05FA) && has_bit val 2 then record p { watchdog_reboot_pending = 1 } else p

  -- STIR: bits 8 to 0 are an interrupt that is signalled to both cores.
  unfoldable pub write_stir : ℕ → Ppb W → Ppb W
  write_stir val p =
      if not (p.membus_rp2350_mode == 0) && ltb (bit_and val 0x1FF) 64
      then nvic_signal_irq corepool_wake_cores irq_latency_pend (bit_and val 0x1FF) p
      else p

  unfoldable pub nvic_write_register : ℕ → ℕ → Ppb W → Ppb W
  nvic_write_register addr val p =
      if addr == 0xE000EF00
      then write_stir val p
      else if leb 0xE000E010 addr && leb addr 0xE000E018
      then on_systick (write_systick addr val) p
      else if leb 0xE000E100 addr && leb addr 0xE000E43C
      then on_nvic (write_irqs addr val) p
      else if addr == 0xE000ED04
      then write_icsr val p
      else if addr == 0xE000ED08
      then record p { vtor = bit_and val 0xFFFFFF80 }
      else if addr == 0xE000ED1C
      then on_nvic (λ ns. record ns { shpr2 = bit_and val 0xC0000000 }) p
      else if addr == 0xE000ED20
      then on_nvic (λ ns. record ns { shpr3 = bit_and val 0xC0C00000 }) p
      else if addr == 0xE000ED0C
      then write_aircr val p
      else if p.membus_rp2350_mode == 0
      then p
      else record (on_nvic (write_faults addr val) p) {
        mpu_state = write_mpu addr val p.mpu_state;
        sau_state = write_sau addr val p.sau_state;
      }
