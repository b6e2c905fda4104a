-- ===== src/Exception/Predication.antt =====
-- The If-Then state of src/cpu.c, and the conditions of src/thumb32.c.
use picoemu.Base.{
  ℕ, ◌+◌, ◌-◌, bit_and, bit_xor, Bool, true, false, not, ◌&&◌, ◌||◌, leb, ltb, ◌==◌, if◌then◌else◌,
  ◌>>◌,
}
use picoemu.Thumb.State.{Cpu}
use picoemu.Thumb.Flags.{flag_n, flag_z, flag_c, flag_v}

abbrev pub it_clear : Cpu → Cpu
it_clear c = record c { it_base = 0; it_mask = 0; it_pos = 0; it_len = 0; it_suppress = 0 }

abbrev is_set : ℕ → ℕ → Bool
is_set xpsr flag = not (bit_and xpsr flag == 0)

abbrev same : Bool → Bool → Bool
same true b = b
same false b = not b

unfoldable pub t32_check_cond : ℕ → ℕ → Bool
t32_check_cond cond xpsr =
    let n = is_set xpsr flag_n in
    let z = is_set xpsr flag_z in
    let c = is_set xpsr flag_c in
    let v = is_set xpsr flag_v in
    let code = bit_and cond 0xF in
    if code == 0
    then z
    else if code == 1
    then not z
    else if code == 2
    then c
    else if code == 3
    then not c
    else if code == 4
    then n
    else if code == 5
    then not n
    else if code == 6
    then v
    else if code == 7
    then not v
    else if code == 8
    then c && not z
    else if code == 9
    then not c || z
    else if code == 10
    then same n v
    else if code == 11
    then not (same n v)
    else if code == 12
    then not z && same n v
    else if code == 13
    then z || not (same n v)
    else true

-- The condition of the next instruction in the block.
unfoldable pub slot_cond : Cpu → ℕ
slot_cond c =
    let te_bit = bit_and (c.it_mask >> (4 - c.it_pos)) 1 in
    if ltb 0 c.it_pos && not (te_bit == bit_and c.it_base 1) then bit_xor c.it_base 1 else c.it_base

-- Whether the instruction `iw` at the program counter is skipped, and the state after its slot is used.
unfoldable pub it_check_skip : ℕ → Cpu → Bool × Cpu
it_check_skip iw c =
    let nested = (iw >> 8 == 0xBF) && not (bit_and iw 0x000F == 0) in
    let pos = c.it_pos + 1 in
    let skip = not (t32_check_cond (slot_cond c) c.xpsr) in
    let used : Cpu =
      if leb c.it_len pos then record c { it_pos = 0; it_len = 0 } else record c { it_pos = pos } in
    if (c.it_len == 0) || nested then (false, c) else (skip, used)
