-- ===== src/Sio/Interp.antt =====
-- The interpolators of src/membus.c, two for each core.
use picoemu.Base.{
  ℕ, ◌+◌, ◌-◌, bit_and, bit_or, not, ◌&&◌, leb, ltb, ◌==◌, if◌then◌else◌, u32, ◌<<◌, ◌>>◌, not32,
}

-- `interp_state_t`
pub record Interp : Type 0 where
  pub accum0 : ℕ
  pub accum1 : ℕ
  pub base0 : ℕ
  pub base1 : ℕ
  pub base2 : ℕ
  pub ctrl0 : ℕ
  pub ctrl1 : ℕ

-- The bits from `lsb` to `msb`, where `lsb` is not above `msb`.
unfoldable pub window_mask : ℕ → ℕ → ℕ
window_mask lsb msb =
    let width = msb - lsb + 1 in
    if leb 32 width then 0xFFFFFFFF else u32 (((1 << width) - 1) << lsb)

-- `interp_lane_result` on the lane's control word and accumulator.
unfoldable pub lane_result : ℕ → ℕ → ℕ
lane_result ctrl accum =
    let shift = bit_and ctrl 0x1F in
    let mask_lsb = bit_and (ctrl >> 5) 0x1F in
    let mask_msb = bit_and (ctrl >> 10) 0x1F in
    let val = bit_and (accum >> shift) (window_mask mask_lsb mask_msb) in
    if ltb mask_msb mask_lsb
    then 0
    else if not (bit_and (ctrl >> 15) 1 == 0) && not (bit_and val (1 << mask_msb) == 0)
    then if leb 31 mask_msb then val else bit_or val (not32 ((1 << (mask_msb + 1)) - 1))
    else val

unfoldable pub interp_lane_result : Interp → ℕ → ℕ
interp_lane_result interp lane =
    if lane == 0
    then lane_result interp.ctrl0 interp.accum0
    else lane_result interp.ctrl1 interp.accum1

unfoldable pub interp_full_result : Interp → ℕ
interp_full_result interp =
    u32 (interp.base2 + interp_lane_result interp 0 + interp_lane_result interp 1)

-- `interp->accum0 += interp->base0;`, and the same of the other lane.
abbrev pub pop_lane0 : Interp → Interp
pop_lane0 i = record i { accum0 = u32 (i.accum0 + i.base0) }

abbrev pub pop_lane1 : Interp → Interp
pop_lane1 i = record i { accum1 = u32 (i.accum1 + i.base1) }

unfoldable pub sio_interp_read : ℕ → Interp → ℕ × Interp
sio_interp_read reg_offset i =
    if reg_offset == 0x00
    then (i.accum0, i)
    else if reg_offset == 0x04
    then (i.accum1, i)
    else if reg_offset == 0x08
    then (i.base0, i)
    else if reg_offset == 0x0C
    then (i.base1, i)
    else if reg_offset == 0x10
    then (i.base2, i)
    else if reg_offset == 0x14
    then (interp_lane_result i 0, pop_lane0 i)
    else if reg_offset == 0x18
    then (interp_lane_result i 1, pop_lane1 i)
    else if reg_offset == 0x1C
    then (interp_full_result i, pop_lane1 (pop_lane0 i))
    else if reg_offset == 0x20
    then (interp_lane_result i 0, i)
    else if reg_offset == 0x24
    then (interp_lane_result i 1, i)
    else if reg_offset == 0x28
    then (interp_full_result i, i)
    else if reg_offset == 0x2C
    then (i.ctrl0, i)
    else if reg_offset == 0x30
    then (i.ctrl1, i)
    else if reg_offset == 0x34
    then (i.accum0, i)
    else if reg_offset == 0x38
    then (i.accum1, i)
    else if reg_offset == 0x3C
    then (bit_or (bit_and i.base1 0xFFFF << 16) (bit_and i.base0 0xFFFF), i)
    else (0, i)

unfoldable pub sio_interp_write : ℕ → ℕ → Interp → Interp
sio_interp_write reg_offset val i =
    if reg_offset == 0x00
    then record i { accum0 = val }
    else if reg_offset == 0x04
    then record i { accum1 = val }
    else if reg_offset == 0x08
    then record i { base0 = val }
    else if reg_offset == 0x0C
    then record i { base1 = val }
    else if reg_offset == 0x10
    then record i { base2 = val }
    else if reg_offset == 0x2C
    then record i { ctrl0 = val }
    else if reg_offset == 0x30
    then record i { ctrl1 = val }
    else if reg_offset == 0x34
    then record i { accum0 = u32 (i.accum0 + val) }
    else if reg_offset == 0x38
    then record i { accum1 = u32 (i.accum1 + val) }
    else if reg_offset == 0x3C
    then record i { base0 = bit_and val 0xFFFF; base1 = val >> 16 }
    else i
