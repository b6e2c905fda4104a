-- ===== src/Thumb32/Operand.antt =====
-- The operands of the 32-bit data processing instructions in src/thumb32.c: the expanded constant
-- and the shifted register.
use picoemu.Base.{
  ℕ, ◌-◌, bit_and, bit_or, Bool, false, not, ◌&&◌, ◌==◌, ltb, leb, if◌then◌else◌, ◌<<◌, ◌>>◌, u32,
  asr32,
}
use picoemu.Thumb.State.{Cpu}
use picoemu.Thumb.Flags.{bits, test, flag_c}
use picoemu.Thumb.Block.{not_zero}

unfoldable pub thumb32_expand_imm : ℕ → ℕ
thumb32_expand_imm imm12 =
    let b = bit_and imm12 0xFF in
    let form = imm12 >> 8 in
    let val = bit_or 0x80 (bit_and imm12 0x7F) in
    let rot = bits imm12 7 0x1F in
    if form == 0
    then b
    else if form == 1
    then bit_or (b << 16) b
    else if form == 2
    then bit_or (b << 24) (b << 8)
    else if form == 3
    then bit_or (bit_or (bit_or (b << 24) (b << 16)) (b << 8)) b
    else if rot == 0
    then val
    else bit_or (val >> rot) (u32 (val << (32 - rot)))

-- The shifted value, and `*carry_out`. The types are 0 for LSL, 1 for LSR, 2 for ASR and 3 for ROR.
unfoldable pub t32_shift_c : ℕ → ℕ → ℕ → Cpu → ℕ × Bool
t32_shift_c val type n c =
    let rot = bit_and n 31 in
    if n == 0
    then (val, test c.xpsr flag_c)
    else if type == 0
    then (if leb 32 n
        then (0, (if n == 32 then not_zero (bit_and val 1) else false))
        else (u32 (val << n), not_zero (bits val (32 - n) 1)))
    else if type == 1
    then (if ltb 32 n
        then (0, false)
        else if n == 32
        then (0, not_zero (val >> 31))
        else (val >> n, not_zero (bits val (n - 1) 1)))
    else if type == 2
    then (if leb 32 n
        then ((if test val 0x80000000 then 0xFFFFFFFF else 0), not_zero (val >> 31))
        else (asr32 val n, not_zero (bits val (n - 1) 1)))
    else if type == 3
    then (if rot == 0
        then (val, not_zero (val >> 31))
        else (bit_or (val >> rot) (u32 (val << (32 - rot))), not_zero (bits val (rot - 1) 1)))
    else (val, false)

-- RRX: the carry comes in at the top, and the lowest bit goes out.
abbrev pub rrx : ℕ → Cpu → ℕ × Bool
rrx rmv c =
    (bit_or (if test c.xpsr flag_c then 0x80000000 else 0) (rmv >> 1), not_zero (bit_and rmv 1))

-- The constant shift of a register, with the encodings of RRX and of a shift by 32.
unfoldable pub shifted_operand : ℕ → ℕ → ℕ → Cpu → ℕ × Bool
unfolding t32_shift_c
shifted_operand rmv type n c =
    if (type == 3) && (n == 0)
    then rrx rmv c
    else t32_shift_c rmv type (if not (type == 0) && (n == 0) then 32 else n) c
