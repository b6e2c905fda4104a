-- ===== src/Nvic/Registers.antt =====
-- The registers of src/nvic.c at their addresses: interrupts, SysTick, the system control block, and
-- the protection units of the RP2350.
use picoemu.Base.{
  ℕ, zero, suc, ◌+◌, ◌-◌, ◌*◌, ◌/◌, bit_and, bit_or, Bool, ◌&&◌, ◌||◌, leb, ◌==◌, if◌then◌else◌,
  not32, ◌<<◌, ◌>>◌,
}
use picoemu.Thumb.State.{update}
use picoemu.Nvic.State.{NvicState, SystickState, Ppb, nvic_cur, systick_cur, on_systick}
use picoemu.Nvic.Irq.{nvic_get_pending_irq}

-- A register of two words, and the sixteen words of IPR.
abbrev pub word_of : ℕ → ℕ → Bool
word_of base addr = (addr == base) || (addr == base + 4)

abbrev pub group : ℕ → ℕ → ℕ
group base addr = (addr - base) / 4

abbrev pub is_ipr : ℕ → Bool
is_ipr addr = leb 0xE000E400 addr && (leb addr 0xE000E43C && (bit_and addr 3 == 0))

-- The `for` that packs the effective priorities of four interrupts, from the byte `i` on.
unfoldable pub pack_priorities : ℕ → ℕ → (ℕ → ℕ) → ℕ → ℕ → ℕ
pack_priorities zero i priority offset result = result
pack_priorities (suc left) i priority offset result =
    pack_priorities left (suc i) priority offset
      (bit_or result (bit_and (priority (offset * 4 + i)) 0xC0 << (i * 8)))

unfoldable pub unpack_priorities : ℕ → ℕ → (ℕ → ℕ) → ℕ → ℕ → (ℕ → ℕ)
unpack_priorities zero i priority offset val = priority
unpack_priorities (suc left) i priority offset val =
    unpack_priorities left (suc i)
      (update priority (offset * 4 + i) (bit_and (val >> (i * 8)) 0xC0)) offset val

-- ICSR: what is pending.
unfoldable pub read_icsr : NvicState → SystickState → ℕ
read_icsr ns st =
    let pending_irq = nvic_get_pending_irq ns in
    let v0 =
      if pending_irq == 0xFFFFFFFF
      then 0
      else bit_or (bit_or 0 ((pending_irq + 16) << 12)) (1 << 22) in
    let v1 = if st.pending == 0 then v0 else bit_or v0 (1 << 30) in
    if ns.pendsv_pending == 0 then v1 else bit_or v1 (1 << 28)

-- The alias registers of the protection unit stand for the regions 1 to 3.
abbrev pub mpu_region : ℕ → ℕ → ℕ
mpu_region offset rnr =
    if offset == 0 then bit_and rnr 7 else if offset == 8 then 1 else if offset == 16 then 2 else 3

abbrev pub is_region_register : ℕ → ℕ → Bool
is_region_register base addr =
    (addr == base) || ((addr == base + 8) || ((addr == base + 16) || (addr == base + 24)))

-- The part of the registers that only the RP2350 has; 0 otherwise.
unfoldable pub read_m33 : {W : Type 0} → ℕ → Ppb W → ℕ
read_m33 addr p =
    let ns = nvic_cur p in
    let mpu = p.mpu_state in
    let sau = p.sau_state in
    if addr == 0xE000ED24
    then ns.shcsr
    else if addr == 0xE000ED28
    then ns.cfsr
    else if addr == 0xE000ED2C
    then ns.hfsr
    else if addr == 0xE000ED34
    then ns.mmfar
    else if addr == 0xE000ED38
    then ns.bfar
    else if addr == 0xE000ED90
    then 8 << 8
    else if addr == 0xE000ED94
    then mpu.ctrl
    else if addr == 0xE000ED98
    then bit_and mpu.rnr 7
    else if is_region_register 0xE000ED9C addr
    then mpu.rbar (mpu_region (addr - 0xE000ED9C) mpu.rnr)
    else if is_region_register 0xE000EDA0 addr
    then mpu.rlar (mpu_region (addr - 0xE000EDA0) mpu.rnr)
    else if addr == 0xE000EDC0
    then mpu.mair 0
    else if addr == 0xE000EDC4
    then mpu.mair 1
    else if addr == 0xE000EDD0
    then bit_and sau.ctrl 3
    else if addr == 0xE000EDD4
    then 8
    else if addr == 0xE000EDD8
    then bit_and sau.rnr 7
    else if addr == 0xE000EDDC
    then sau.rbar (bit_and sau.rnr 7)
    else if addr == 0xE000EDE0
    then sau.rlar (bit_and sau.rnr 7)
    else 0

-- What is read; a read of the SysTick status clears COUNTFLAG.
unfoldable pub nvic_read_register : {W : Type 0} → ℕ → Ppb W → ℕ × Ppb W
nvic_read_register addr p =
    let ns = nvic_cur p in
    let st = systick_cur p in
    let icsr = read_icsr ns st in
    let m33 = read_m33 addr p in
    if addr == 0xE000EF00
    then (0, p)
    else if addr == 0xE000E010
    then (st.csr, on_systick (λ s. record s { csr = bit_and s.csr (not32 (1 << 16)) }) p)
    else if addr == 0xE000E014
    then (bit_and st.rvr 0x00FFFFFF, p)
    else if addr == 0xE000E018
    then (bit_and st.cvr 0x00FFFFFF, p)
    else if addr == 0xE000E01C
    then (0xC0002710, p)
    else if word_of 0xE000E100 addr
    then (ns.enable (group 0xE000E100 addr), p)
    else if word_of 0xE000E180 addr
    then (ns.enable (group 0xE000E180 addr), p)
    else if word_of 0xE000E200 addr
    then (ns.pending (group 0xE000E200 addr), p)
    else if word_of 0xE000E280 addr
    then (ns.pending (group 0xE000E280 addr), p)
    else if word_of 0xE000E300 addr
    then (ns.iabr (group 0xE000E300 addr), p)
    else if is_ipr addr
    then (pack_priorities 4 0 ns.priority (group 0xE000E400 addr) 0, p)
    else if addr == 0xE000ED04
    then (icsr, p)
    else if addr == 0xE000ED08
    then (p.vtor, p)
    else if addr == 0xE000ED00
    then (p.nvic_cpuid_value, p)
    else if addr == 0xE000ED0C
    then (0x05FA0000, p)
    else if addr == 0xE000ED10
    then (0, p)
    else if addr == 0xE000ED14
    then (1 << 9, p)
    else if addr == 0xE000ED18
    then (ns.shpr1, p)
    else if addr == 0xE000ED1C
    then (ns.shpr2, p)
    else if addr == 0xE000ED20
    then (ns.shpr3, p)
    else if p.membus_rp2350_mode == 0
    then (0, p)
    else (m33, p)
