-- ===== src/Thumb/Flags.antt =====
-- The flag helpers and the sign extensions of src/instructions.c.
use picoemu.Base.{
  ℕ, ◌+◌, bit_and, bit_or, bit_xor, Bool, not, ◌==◌, ltb, leb, if◌then◌else◌, ◌>>◌, not32,
}
use picoemu.Thumb.State.{Cpu}

abbrev pub flag_n : ℕ
flag_n = 0x80000000

abbrev pub flag_z : ℕ
flag_z = 0x40000000

abbrev pub flag_c : ℕ
flag_c = 0x20000000

abbrev pub flag_v : ℕ
flag_v = 0x10000000

-- `(instr >> k) & mask`, the way each handler takes its operands apart.
abbrev pub bits : ℕ → ℕ → ℕ → ℕ
bits instr k mask = bit_and (instr >> k) mask

-- `(x & mask) != 0`
abbrev pub test : ℕ → ℕ → Bool
test x mask = not (bit_and x mask == 0)

-- `if (b) flags |= flag;`
abbrev pub or_if : Bool → ℕ → ℕ → ℕ
or_if b flag flags = if b then bit_or flags flag else flags

unfoldable pub update_nz_flags : ℕ → Cpu → Cpu
update_nz_flags result c =
    let flags = if result == 0 then flag_z else if not (result >> 31 == 0) then flag_n else 0 in
    record c { xpsr = bit_or (bit_and c.xpsr (not32 (bit_or flag_n flag_z))) flags }

abbrev pub nzcv_mask : ℕ
nzcv_mask = not32 (bit_or (bit_or (bit_or flag_n flag_z) flag_c) flag_v)

unfoldable pub update_add_flags : ℕ → ℕ → ℕ → Cpu → Cpu
update_add_flags op1 op2 result c =
    let f0 = or_if (result == 0) flag_z 0 in
    let f1 = or_if (not (result >> 31 == 0)) flag_n f0 in
    let f2 = or_if (ltb 0xFFFFFFFF (op1 + op2)) flag_c f1 in
    let over = bit_and (bit_xor op1 result) (bit_xor op2 result) >> 31 in
    let f3 = or_if (not (over == 0)) flag_v f2 in
    record c { xpsr = bit_or (bit_and c.xpsr nzcv_mask) f3 }

unfoldable pub update_sub_flags : ℕ → ℕ → ℕ → Cpu → Cpu
update_sub_flags op1 op2 result c =
    let f0 = or_if (result == 0) flag_z 0 in
    let f1 = or_if (not (result >> 31 == 0)) flag_n f0 in
    let f2 = or_if (leb op2 op1) flag_c f1 in
    let over = bit_and (bit_xor op1 op2) (bit_xor op1 result) >> 31 in
    let f3 = or_if (not (over == 0)) flag_v f2 in
    record c { xpsr = bit_or (bit_and c.xpsr nzcv_mask) f3 }

-- `if (b) cpu.xpsr |= FLAG_C; else cpu.xpsr &= ~FLAG_C;`
abbrev pub put_carry : Bool → Cpu → Cpu
put_carry b c = record c {
  xpsr = if b then bit_or c.xpsr flag_c else bit_and c.xpsr (not32 flag_c);
}

unfoldable pub sign_extend_8 : ℕ → ℕ
sign_extend_8 value = if test value 0x80 then bit_or value 0xFFFFFF00 else value

unfoldable pub sign_extend_16 : ℕ → ℕ
sign_extend_16 value = if test value 0x8000 then bit_or value 0xFFFF0000 else value
