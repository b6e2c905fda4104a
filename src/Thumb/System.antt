-- ===== src/Thumb/System.antt =====
-- Special registers, exceptions, IT, hints and sleep of src/instructions.c, with the IT state of
-- src/cpu.c. Debug output is left out.
use picoemu.Base.{
  ℕ, zero, suc, ◌+◌, ◌-◌, bit_and, bit_or, true, false, ◌||◌, ◌==◌, ltb, if◌then◌else◌, ◌>>◌, u32,
  u8, none, some,
}
use picoemu.Thumb.State.{Cpu, update, set_reg, Machine, Env, on_cpu}
use picoemu.Thumb.Flags.{bits}

abbrev pub exc_hardfault : ℕ
exc_hardfault = 3

abbrev pub exc_svcall : ℕ
exc_svcall = 11

-- BASEPRI_MAX only raises the threshold.
abbrev pub basepri_max : ℕ → ℕ → ℕ
basepri_max val old = if ltb old (bit_and val 0xFF) || old == 0 then bit_and val 0xFF else old

unfoldable pub instr_msr_32 : ℕ → ℕ → Cpu → Cpu
instr_msr_32 rn sysm c =
    let val = c.r rn in
    if ltb sysm 0x04
    then record c { xpsr = bit_or (bit_and c.xpsr 0x0FFFFFFF) (bit_and val 0xF0000000) }
    else if sysm == 0x08
    then set_reg 13 val c
    else if sysm == 0x09
    then c
    else if sysm == 0x10
    then record c { primask = bit_and val 1 }
    else if sysm == 0x11
    then record c { m33_basepri = bit_and val 0xFF }
    else if sysm == 0x12
    then record c { m33_basepri = basepri_max val c.m33_basepri }
    else if sysm == 0x13
    then record c { faultmask = bit_and val 1 }
    else if sysm == 0x14
    then record c { control = bit_and val 0x3 }
    else c

-- The value that `instr_mrs_32` reads.
abbrev pub special_register : ℕ → Cpu → ℕ
special_register sysm c =
    if sysm == 0x00
    then bit_and c.xpsr 0xF0000000
    else if ltb sysm 0x04
    then c.xpsr
    else if sysm == 0x05
    then bit_and c.xpsr 0x1FF
    else if sysm == 0x06
    then bit_and c.xpsr 0x01000000
    else if sysm == 0x08
    then c.r 13
    else if sysm == 0x09
    then 0
    else if sysm == 0x10
    then c.primask
    else if sysm == 0x11 || sysm == 0x12
    then c.m33_basepri
    else if sysm == 0x13
    then c.faultmask
    else if sysm == 0x14
    then c.control
    else 0

unfoldable pub instr_mrs_32 : ℕ → ℕ → Cpu → Cpu
instr_mrs_32 rd sysm c = set_reg rd (special_register sysm c) c

unfoldable pub instr_mrs : ℕ → Cpu → Cpu
instr_mrs instr c = set_reg (bits instr 8 0x0F) c.xpsr c

-- `while (n < 4 && !(mask & 1)) { mask >>= 1; n++; }`, `left` rounds from `n = 4 - left` on.
abbrev pub trailing_zeros : ℕ → ℕ → ℕ → ℕ
trailing_zeros zero mask n = n
trailing_zeros (suc left) mask n = elim (bit_and mask 1 == 0) [
  | true ↦ trailing_zeros left (mask >> 1) (n + 1)
  | false ↦ n
]

unfoldable pub it_mask_len : ℕ → ℕ
it_mask_len mask = 4 - trailing_zeros 4 mask 0

unfoldable pub it_set_state : ℕ → Cpu → Cpu
unfolding it_mask_len
it_set_state instr c = record c {
  it_base = bits instr 4 0xF;
  it_mask = bit_and instr 0xF;
  it_pos = 0;
  it_len = u8 (it_mask_len (bit_and instr 0xF));
}

unfoldable pub instr_it : ℕ → Cpu → Cpu
unfolding it_set_state
instr_it instr c = it_set_state instr c

unfoldable pub instr_cpsid : Cpu → Cpu
instr_cpsid c = record c { primask = 1 }

unfoldable pub instr_cpsie : Cpu → Cpu
instr_cpsie c = record c { primask = 0 }

unfoldable pub instr_nop : Cpu → Cpu
instr_nop c = c

unfoldable pub instr_yield : Cpu → Cpu
instr_yield c = c

abbrev pub num_cores : ℕ
num_cores = 2

-- `cores[c].is_wfi = 1` for the active core.
unfoldable pub instr_wfi : {W : Type 0} → Machine W → Machine W
instr_wfi m =
    if ltb m.active_core num_cores then record m { is_wfi = update m.is_wfi m.active_core 1 } else m

unfoldable pub instr_wfe : {W : Type 0} → Machine W → Machine W
instr_wfe m =
    if ltb m.active_core num_cores then record m { is_wfi = update m.is_wfi m.active_core 1 } else m

-- The loop over the cores, written out for the two of them.
unfoldable pub instr_sev : {W : Type 0} → Machine W → Machine W
instr_sev m = record m { is_wfi = update (update m.is_wfi 0 0) 1 0 }

abbrev pub updated : Cpu → Cpu
updated c = record c { pc_updated = 1 }

module _ {W : Type 0} (env : Env W) where
  unfoldable pub instr_svc : ℕ → Machine W → Machine W
  instr_svc instr m =
      on_cpu updated
        (env.cpu_exception_entry exc_svcall (on_cpu (λ c. set_reg 15 (u32 (c.r 15 + 2)) c) m))

  unfoldable pub hard_fault : Machine W → Machine W
  hard_fault m = on_cpu updated (env.cpu_exception_entry exc_hardfault m)

  unfoldable pub instr_bkpt : ℕ → Machine W → Machine W
  unfolding hard_fault
  instr_bkpt instr m =
      if bit_and instr 0xFF == 0xAB
      then elim (env.semihosting_handle m) [ some m' ↦ on_cpu updated m' | none ↦ hard_fault m ]
      else hard_fault m

  unfoldable pub instr_udf : Machine W → Machine W
  unfolding hard_fault
  instr_udf m = hard_fault m

  unfoldable pub instr_unimplemented : Machine W → Machine W
  unfolding hard_fault
  instr_unimplemented m = hard_fault m
