-- ===== src/Thumb32/Dsp.antt =====
-- The parallel and saturating instructions in `t32_misc` of src/thumb32.c.
use picoemu.Base.{
  ℕ, zero, suc, ◌+◌, ◌-◌, ◌*◌, ◌%◌, ◌^◌, bit_and, bit_or, Bool, true, false, not, ◌&&◌, ◌||◌, ◌==◌,
  ltb, leb, if◌then◌else◌, ◌<<◌, ◌>>◌, u32,
}
use picoemu.Base.Int.{
  ℤ, pos, negsuc, ◌+ℤ◌, ◌-ℤ◌, signed32, signed_bits, int_word, ltbℤ, shift_right,
}
use picoemu.Thumb.State.{Cpu, set_reg}
use picoemu.Thumb.Flags.{bits, test}
use picoemu.Thumb.Block.{not_zero}

-- `if (Rd != 15) cpu.r[Rd] = res;`
unfoldable pub set_low : ℕ → ℕ → Cpu → Cpu
set_low rd res c = if not (rd == 15) then set_reg rd res c else c

-- `if (q) cpu.xpsr |= (1u << 27);`
unfoldable pub set_q : Bool → Cpu → Cpu
set_q q c = if q then record c { xpsr = bit_or c.xpsr (1 << 27) } else c

-- A value cut to the range from `lo` to `hi`, and whether it was outside.
abbrev pub saturate : ℤ → ℤ → ℤ → ℤ × Bool
saturate lo hi s = if ltbℤ s lo then (lo, true) else if ltbℤ hi s then (hi, true) else (s, false)

-- The loops over the lanes: the fields are joined, and a flag is set by any.
abbrev pub or_lanes : ℕ → (ℕ → ℕ) → ℕ → ℕ
or_lanes width field zero = 0
or_lanes width field (suc l) = bit_or (or_lanes width field l) (field l << (l * width))

abbrev pub any_lane : (ℕ → Bool) → ℕ → Bool
any_lane q zero = false
any_lane q (suc l) = any_lane q l || q l

-- Lane `l` of `width` bits, unsigned and as an integer.
abbrev pub lane : ℕ → ℕ → ℕ → ℕ
lane width x l = (x >> (l * width)) % 2 ^ width

abbrev pub lane_int : ℕ → ℕ → ℕ → ℤ
lane_int width x l = signed_bits width (lane width x l)

abbrev lane_min : ℕ → ℤ
lane_min width = negsuc (2 ^ (width - 1) - 1)

abbrev lane_max : ℕ → ℤ
lane_max width = pos (2 ^ (width - 1) - 1)

-- A lane of the signed operations: halved, or saturated.
abbrev pub signed_lane : ℕ → Bool → Bool → ℕ → ℕ → ℕ → ℤ × Bool
signed_lane width is_sub is_h a b l =
    let av = lane_int width a l in
    let bv = lane_int width b l in
    let s = if is_sub then av -ℤ bv else av +ℤ bv in
    if is_h then (shift_right s 1, false) else saturate (lane_min width) (lane_max width) s

-- A lane of the unsigned operations.
abbrev pub unsigned_lane : Bool → ℕ → ℕ → ℕ → ℕ × Bool
unsigned_lane is_sub a b l =
    let av = lane 16 a l in
    let bv = lane 16 b l in
    if is_sub
    then (if ltb av bv then (0, true) else (av - bv, false))
    else if ltb 0xFFFF (av + bv)
    then (0xFFFF, true)
    else (av + bv, false)

-- Halves crossed: one is added, the other subtracted.
unfoldable pub crossed : ℕ → ℕ → ℕ → ℕ × Bool
crossed op_a a b =
    let s0 =
      if op_a == 0xA
      then lane_int 16 a 0 -ℤ lane_int 16 b 1
      else lane_int 16 a 0 +ℤ lane_int 16 b 1 in
    let s1 =
      if op_a == 0xA
      then lane_int 16 a 1 +ℤ lane_int 16 b 0
      else lane_int 16 a 1 -ℤ lane_int 16 b 0 in
    let r0 = saturate (lane_min 16) (lane_max 16) s0 in
    let r1 = saturate (lane_min 16) (lane_max 16) s1 in
    (bit_or (int_word 16 r0.0) (int_word 16 r1.0 << 16), r0.1 || r1.1)

-- The loop over the lanes. The unsigned form has two, since its `opB` is 9.
unfoldable pub unsigned_lanes : Bool → ℕ → ℕ → ℕ × Bool
unsigned_lanes is_sub a b = (
  or_lanes 16 (λ l. (unsigned_lane is_sub a b l).0) 2,
  any_lane (λ l. (unsigned_lane is_sub a b l).1) 2,
)

unfoldable pub signed_lanes : Bool → Bool → Bool → ℕ → ℕ → ℕ × Bool
signed_lanes halves is_sub is_h a b =
    let half = signed_lane 16 is_sub is_h a b in
    let byte = signed_lane 8 is_sub is_h a b in
    if halves
    then (or_lanes 16 (λ l. int_word 16 (half l).0) 2, any_lane (λ l. (half l).1) 2)
    else (or_lanes 8 (λ l. int_word 8 (byte l).0) 4, any_lane (λ l. (byte l).1) 4)

unfoldable pub parallel_result : ℕ → ℕ → ℕ → ℕ → ℕ → ℕ × Bool
parallel_result op_a op_b low3 a b =
    let is_u = (op_a == 0x9) && (op_b == 0x9) in
    let is_sub = (op_a == 0xC) || (op_a == 0xD) || (op_a == 0xE) in
    let is_ex = (op_a == 0xA) || (op_a == 0xE) in
    let halves = is_ex || (low3 == 0x0) || (low3 == 0x2) || (op_b == 0x9) || (op_b == 0xD) in
    if is_ex
    then crossed op_a a b
    else if is_u
    then unsigned_lanes is_sub a b
    else signed_lanes halves is_sub (low3 == 0x1) a b

unfoldable pub parallel_add_sub : ℕ → ℕ → Cpu → Cpu
parallel_add_sub upper lower c =
    let low3 = bits lower 5 7 in
    let out =
      parallel_result (bits upper 4 0xF) (bits upper 8 0xF) low3 (c.r (bit_and upper 0xF))
        (c.r (bit_and lower 0xF)) in
    set_q (out.1 && not (low3 == 0x1)) (set_low (bits lower 8 0xF) out.0 c)

-- SEL: each byte is taken by its GE flag.
abbrev pub selected : ℕ → ℕ → Cpu → ℕ → ℕ
selected upper lower c l =
    if test (bits c.xpsr 16 0xF) (1 << l)
    then lane 8 (c.r (bit_and upper 0xF)) l
    else lane 8 (c.r (bit_and lower 0xF)) l

unfoldable pub select_bytes : ℕ → ℕ → Cpu → Cpu
select_bytes upper lower c = set_low (bits lower 8 0xF) (or_lanes 8 (selected upper lower c) 4) c

-- The shift amount imm3:imm2.
abbrev pub amount_of : ℕ → ℕ
amount_of lower = bit_or (bits lower 12 7 << 2) (bits lower 6 3)

-- `(amount == 0 || amount >= 32) ? (sign ? -1 : 0) : (int32_t)v >> amount`
abbrev asr_int : ℕ → ℕ → ℤ
asr_int v amount =
    if (amount == 0) || leb 32 amount
    then (if test v 0x80000000 then negsuc 0 else pos 0)
    else shift_right (signed32 v) amount

-- PKHBT and PKHTB.
unfoldable pub pack_halves : ℕ → ℕ → Cpu → Cpu
pack_halves upper lower c =
    let amount = amount_of lower in
    let rn = c.r (bit_and upper 0xF) in
    let v = c.r (bit_and lower 0xF) in
    let bottom =
      bit_or (bit_and rn 0xFFFF) (if leb 32 amount then 0 else bit_and (v << amount) 0xFFFF0000) in
    let top = bit_or (int_word 16 (asr_int v amount)) (bit_and rn 0xFFFF0000) in
    set_low (bits lower 8 0xF) (if bits lower 5 1 == 0 then bottom else top) c

-- The range of `w` bits; from 16 bits on that of an `int16_t`.
abbrev saturate_half : Bool → ℕ → ℤ → ℤ × Bool
saturate_half is_u w v =
    if is_u
    then saturate (pos 0) (pos (if leb 16 w then 0xFFFF else 2 ^ w - 1)) v
    else if leb 16 w
    then saturate (lane_min 16) (lane_max 16) v
    else saturate (lane_min w) (lane_max w) v

-- SSAT16 and USAT16.
abbrev pub saturated_half : ℕ → ℕ → Cpu → ℕ → ℤ × Bool
saturated_half upper lower c l =
    saturate_half (not_zero (bits upper 4 1)) (bit_and lower 0xF + 1)
      (lane_int 16 (c.r (bit_and upper 0xF)) l)

unfoldable pub saturate_halves : ℕ → ℕ → Cpu → Cpu
saturate_halves upper lower c =
    let half = saturated_half upper lower c in
    set_q (any_lane (λ l. (half l).1) 2)
      (set_low (bits lower 8 0xF) (or_lanes 16 (λ l. int_word 16 (half l).0) 2) c)

-- SSAT and USAT of a shifted register.
unfoldable pub saturate_word : ℕ → ℕ → Cpu → Cpu
saturate_word upper lower c =
    let is_usat = not_zero (bits upper 7 1) in
    let amount = amount_of lower in
    let sat = bit_and lower 0x1F in
    let v = c.r (bit_and upper 0xF) in
    let s = if not_zero (bits upper 5 1) then asr_int v amount else signed32 (u32 (v << amount)) in
    let out =
      if is_usat
      then saturate (pos 0) (pos (2 ^ sat - 1)) s
      else saturate (lane_min (sat + 1)) (lane_max (sat + 1)) s in
    set_q out.1 (set_low (bits lower 8 0xF) (int_word 32 out.0) c)
