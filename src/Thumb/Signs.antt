-- ===== src/Thumb/Signs.antt =====
-- The sign extensions of src/instructions.c as integers.
use picoemu.Base.{ℕ, ◌+◌, ◌-◌, ◌/◌, ◌^◌, ◌<◌, ◌≡◌, bit_or, ◌∙◌, ltb, if◌then◌else◌, arith}
use picoemu.Base.Bits.{bit_or_high}
use picoemu.Base.Int.{ℤ, pos, negsuc, signed32}
use picoemu.Thumb.Flags.{sign_extend_8, sign_extend_16}
use picoemu.Thumb.Nzcv.{test_bit}

-- The integers that an `int8_t` and an `int16_t` stand for.
abbrev pub signed8 : ℕ → ℤ
signed8 v = if ltb v (2 ^ 7) then pos v else negsuc (2 ^ 8 - v - 1)

abbrev pub signed16 : ℕ → ℤ
signed16 v = if ltb v (2 ^ 15) then pos v else negsuc (2 ^ 16 - v - 1)

above_byte : (v : ℕ) → v < 2 ^ 8 → bit_or v 0xFFFFFF00 ≡ 0xFFFFFF00 + v
above_byte v h =
    let e : v / 2 ^ 8 ≡ 0 = omega arith in bit_or_high 8 v 0xFFFFFF ∙ rw e (omega arith)

above_half : (v : ℕ) → v < 2 ^ 16 → bit_or v 0xFFFF0000 ≡ 0xFFFF0000 + v
above_half v h =
    let e : v / 2 ^ 16 ≡ 0 = omega arith in bit_or_high 16 v 0xFFFF ∙ rw e (omega arith)

-- As a 32-bit integer, `sign_extend_8` of a byte is that byte as an `int8_t`, and
-- `sign_extend_16` of a halfword is that halfword as an `int16_t`; both results are words.
pub signed32-sign_extend :
    (b h : ℕ)
    → b < 2 ^ 8
    → h < 2 ^ 16
    → (signed32 (sign_extend_8 b) ≡ signed8 b)
      × (sign_extend_8 b < 2 ^ 32)
      × (signed32 (sign_extend_16 h) ≡ signed16 h)
      × (sign_extend_16 h < 2 ^ 32)
unfolding sign_extend_8 sign_extend_16
signed32-sign_extend b h hb hh = (
  ground (arith, test_bit 7 b, above_byte b hb),
  ground (arith, test_bit 7 b, above_byte b hb),
  ground (arith, test_bit 15 h, above_half h hh),
  ground (arith, test_bit 15 h, above_half h hh),
)
