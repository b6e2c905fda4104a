-- ===== src/Thumb/Shift.antt =====
-- The shifts and rotations of src/instructions.c, by a constant and by a register.
use picoemu.Base.{ℕ, ◌-◌, bit_and, bit_or, false, ◌==◌, ltb, if◌then◌else◌, ◌<<◌, ◌>>◌, u32, asr32}
use picoemu.Thumb.State.{Cpu, set_reg}
use picoemu.Thumb.Flags.{bits, test, put_carry, update_nz_flags}

unfoldable pub instr_shift_logical_left : ℕ → Cpu → Cpu
instr_shift_logical_left instr c =
    let imm = bits instr 6 0x1F in
    let src = bits instr 3 0x07 in
    let dst = bit_and instr 0x07 in
    let carried = put_carry (test (c.r src) (1 << (32 - imm))) c in
    let shifted =
      if imm == 0
      then set_reg dst (c.r src) c
      else set_reg dst (u32 (carried.r src << imm)) carried in
    update_nz_flags (shifted.r dst) shifted

-- With `imm == 0` the destination is cleared before the source is tested.
unfoldable pub instr_shift_logical_right : ℕ → Cpu → Cpu
instr_shift_logical_right instr c =
    let imm = bits instr 6 0x1F in
    let src = bits instr 3 0x07 in
    let dst = bit_and instr 0x07 in
    let cleared = set_reg dst 0 c in
    let carried = put_carry (test (c.r src) (1 << (imm - 1))) c in
    let shifted =
      if imm == 0
      then put_carry (test (cleared.r src) 0x80000000) cleared
      else set_reg dst (carried.r src >> imm) carried in
    update_nz_flags (shifted.r dst) shifted

unfoldable pub instr_shift_arithmetic_right : ℕ → Cpu → Cpu
instr_shift_arithmetic_right instr c =
    let imm = bits instr 6 0x1F in
    let src = bits instr 3 0x07 in
    let dst = bit_and instr 0x07 in
    let carried = put_carry (test (c.r src) (1 << (imm - 1))) c in
    let filled =
      if test (c.r src) 0x80000000
      then set_reg dst 0xFFFFFFFF (put_carry (test (c.r src) 0x80000000) c)
      else set_reg dst 0 (put_carry (test (c.r src) 0x80000000) c) in
    let shifted = if imm == 0 then filled else set_reg dst (asr32 (carried.r src) imm) carried in
    update_nz_flags (shifted.r dst) shifted

-- The low byte of the shift register, and the write of a shifted register with its flags.
abbrev pub shift_amount : ℕ → Cpu → ℕ
shift_amount instr c = bit_and (c.r (bits instr 3 0x07)) 0xFF

abbrev pub store_shifted : ℕ → ℕ → Cpu → Cpu
store_shifted rd value c = update_nz_flags value (set_reg rd value c)

unfoldable pub instr_lsls_reg : ℕ → Cpu → Cpu
instr_lsls_reg instr c =
    let rd = bit_and instr 0x07 in
    let shift = shift_amount instr c in
    if shift == 0
    then c
    else if ltb shift 32
    then store_shifted rd (u32 (c.r rd << shift)) (put_carry (test (c.r rd) (1 << (32 - shift))) c)
    else if shift == 32
    then store_shifted rd 0 (put_carry (test (c.r rd) 1) c)
    else store_shifted rd 0 (put_carry false c)

unfoldable pub instr_lsrs_reg : ℕ → Cpu → Cpu
instr_lsrs_reg instr c =
    let rd = bit_and instr 0x07 in
    let shift = shift_amount instr c in
    if shift == 0
    then c
    else if ltb shift 32
    then store_shifted rd (c.r rd >> shift) (put_carry (test (c.r rd) (1 << (shift - 1))) c)
    else if shift == 32
    then store_shifted rd 0 (put_carry (test (c.r rd) 0x80000000) c)
    else store_shifted rd 0 (put_carry false c)

unfoldable pub instr_asrs_reg : ℕ → Cpu → Cpu
instr_asrs_reg instr c =
    let rd = bit_and instr 0x07 in
    let shift = shift_amount instr c in
    let sign = test (c.r rd) 0x80000000 in
    if shift == 0
    then c
    else if ltb shift 32
    then store_shifted rd (asr32 (c.r rd) shift) (put_carry (test (c.r rd) (1 << (shift - 1))) c)
    else store_shifted rd (if sign then 0xFFFFFFFF else 0) (put_carry sign c)

unfoldable pub instr_rors_reg : ℕ → Cpu → Cpu
instr_rors_reg instr c =
    let rd = bit_and instr 0x07 in
    let shift_full = shift_amount instr c in
    let shift = bit_and shift_full 0x1F in
    let result =
      if shift == 0 then c.r rd else bit_or (c.r rd >> shift) (u32 (c.r rd << (32 - shift))) in
    if shift_full == 0 then c else store_shifted rd result (put_carry (test result 0x80000000) c)
