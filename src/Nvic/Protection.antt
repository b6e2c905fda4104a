-- ===== src/Nvic/Protection.antt =====
-- Memory protection, attribution and faults of src/nvic.c, for the RP2350's ARM core.
use picoemu.Base.{
  ℕ, zero, suc, Option, none, some, bit_and, bit_or, Bool, false, not, ◌&&◌, ◌||◌, ltb, leb, ◌==◌,
  if◌then◌else◌, ◌<<◌, ◌>>◌,
}
use picoemu.Nvic.State.{NvicState, MpuState, SauState, Ppb, on_nvic, nvic_bit_set}

-- An enabled region whose 32-byte blocks hold the address: the tests of both loops.
abbrev pub is_inside : ℕ → ℕ → ℕ → Bool
is_inside rbar rlar addr =
    leb (bit_and rbar 0xFFFFFFE0) addr && leb addr (bit_or (bit_and rlar 0xFFFFFFE0) 0x1F)

abbrev pub region_hit : (ℕ → ℕ) → (ℕ → ℕ) → ℕ → ℕ → Bool
region_hit rbar rlar addr r = not (bit_and (rlar r) 1 == 0) && is_inside (rbar r) (rlar r) addr

-- The `for` of `sau_attr` from region `r` on: the first region that holds the address.
unfoldable pub sau_loop : ℕ → ℕ → SauState → ℕ → ℕ
sau_loop zero r sau addr = 0
sau_loop (suc left) r sau addr =
    let rest = sau_loop left (suc r) sau addr in
    if region_hit sau.rbar sau.rlar addr r
    then (if bit_and (sau.rlar r) 2 == 0 then 1 else 2)
    else rest

unfoldable pub sau_attr : {W : Type 0} → ℕ → Ppb W → ℕ
sau_attr addr p =
    let looked_up = sau_loop 8 0 p.sau_state addr in
    if p.membus_rp2350_mode == 0
    then 0
    else if bit_and p.sau_state.ctrl 1 == 0
    then (if bit_and p.sau_state.ctrl 2 == 0 then 0 else 1)
    else looked_up

-- The `for` of `mpu_check` over the first `n` regions: the last one that holds the address.
unfoldable pub mpu_hit : ℕ → MpuState → ℕ → Option ℕ
mpu_hit zero mpu addr = none
mpu_hit (suc r) mpu addr =
    let before = mpu_hit r mpu addr in
    if region_hit mpu.rbar mpu.rlar addr r then some r else before

-- What the access bits of a region say: 2 is for privileged code only, 3 is read-only.
unfoldable pub access_fault : ℕ → Bool → Bool → ℕ
access_fault ap is_write is_priv =
    if is_write
    then (if (ap == 3) || (not is_priv && (ap == 2)) then 4 else 0)
    else if not is_priv && (ap == 2)
    then 4
    else 0

-- 0, or the number of the fault: 3 is the hard fault and 4 that of memory management.
unfoldable pub mpu_check : {W : Type 0} → ℕ → Bool → Bool → Ppb W → ℕ
mpu_check addr is_write is_priv p =
    let mpu = p.mpu_state in
    let background = not (bit_and mpu.ctrl 4 == 0) in
    let in_ppb = leb 0xE0000000 addr && ltb addr 0xE0010000 in
    let hit = mpu_hit 8 mpu addr in
    if p.membus_rp2350_mode == 0
    then 0
    else if bit_and mpu.ctrl 1 == 0
    then (if in_ppb && (not is_priv || not background) then 3 else 0)
    else elim hit [
      | none ↦ if is_priv && background then 0 else 3
      | some r ↦ access_fault (bit_and (mpu.rbar r >> 1) 3) is_write is_priv
    ]

-- `control` is `cpu.control`; `alt` asks for the unprivileged view.
unfoldable pub tt_answer : {W : Type 0} → ℕ → ℕ → Bool → Ppb W → ℕ
tt_answer control addr alt p =
    let is_priv = not alt && (bit_and control 2 == 0) in
    let world = if sau_attr addr p == 0 then 1 << 22 else 1 << 21 in
    let unreadable = not (mpu_check addr false is_priv p == 0) in
    if (bit_and p.sau_state.ctrl 1 == 0) && (bit_and p.mpu_state.ctrl 1 == 0)
    then (if bit_and p.sau_state.ctrl 2 == 0 then 1 << 22 else 1 << 21)
    else if unreadable
    then bit_or world 1
    else world

-- On the RP2350 the fault is recorded with the flag FORCED; on the RP2040 bit 32 is pended.
unfoldable pub nvic_raise_fault : {W : Type 0} → ℕ → ℕ → Ppb W → Ppb W
nvic_raise_fault exc cfsr_bits p =
    let record_fault : ℕ → NvicState → NvicState = λ pended ns. record ns {
      hfsr = bit_or ns.hfsr (1 << 30);
      cfsr = bit_or ns.cfsr cfsr_bits;
      shcsr = bit_or ns.shcsr pended;
    } in
    if p.membus_rp2350_mode == 0
    then on_nvic (λ ns. record ns { pending = nvic_bit_set ns.pending 32 }) p
    else if exc == 4
    then on_nvic (record_fault 1) p
    else if exc == 5
    then on_nvic (record_fault 2) p
    else if exc == 6
    then on_nvic (record_fault 4) p
    else on_nvic (λ ns. record ns { hfsr = bit_or ns.hfsr (1 << 30) }) p
