-- ===== src/Thumb/Reversal.antt =====
-- REV and REV16 of src/instructions.c byte by byte.
use picoemu.Base.{
  ℕ, ◌+◌, ◌*◌, ◌/◌, ◌%◌, ◌^◌, ◌<◌, ◌≡◌, refl, ap, ◌∙◌, bit_and, bit_or, ◌>>◌, u32, arith,
}
use picoemu.Base.Bits.{bit_and_mask, bit_and_test, bit_or-sum, bit_or_split, bit_and_split}
use picoemu.Thumb.Logic.{reverse_bytes, reverse_pairs}

-- Byte `i` of a word.
abbrev pub byte : ℕ → ℕ → ℕ
byte i x = x / 2 ^ (8 * i) % 2 ^ 8

field_at : (k x : ℕ) → bit_and x (0xFF * 2 ^ k) ≡ x / 2 ^ k % 2 ^ 8 * 2 ^ k
field_at k x = bit_and_test k x 0xFF ∙ rw (bit_and_mask 8 (x / 2 ^ k))

reverse_bytes_as_sum :
    (x : ℕ)
    → x < 2 ^ 32
    → reverse_bytes x
      ≡ x % 2 ^ 8 * 2 ^ 24 + x / 2 ^ 8 % 2 ^ 8 * 2 ^ 16 + x / 2 ^ 16 % 2 ^ 8 * 2 ^ 8 + x / 2 ^ 24
unfolding reverse_bytes
reverse_bytes_as_sum x h =
    let b0 = x % 2 ^ 8 in
    let b1 = x / 2 ^ 8 % 2 ^ 8 in
    let b2 = x / 2 ^ 16 % 2 ^ 8 in
    let b3 = x / 2 ^ 24 in
    let e0 : u32 (b0 * 2 ^ 24) ≡ b0 * 2 ^ 24 = omega arith in
    let e1 : u32 (b1 * 2 ^ 8 * 2 ^ 8) ≡ b1 * 2 ^ 16 = omega arith in
    let e2 : b2 * 2 ^ 16 / 2 ^ 8 ≡ b2 * 2 ^ 8 = omega arith in
    let e3 : b3 % 2 ^ 8 ≡ b3 = omega arith in
    rw (bit_and_mask 8 x, field_at 8 x, field_at 16 x, bit_and_mask 8 (x >> 24), e0, e1, e2, e3)
      (rw (bit_or-sum 24 b0 (b0 * 2 ^ 24) (b1 * 2 ^ 16) refl (omega arith)) (
        rw
          (bit_or-sum 16 (b0 * 256 + b1) (b0 * 2 ^ 24 + b1 * 2 ^ 16) (b2 * 2 ^ 8) (omega arith)
            (omega arith))
          (bit_or-sum 8 (b0 * 65536 + b1 * 256 + b2) (b0 * 2 ^ 24 + b1 * 2 ^ 16 + b2 * 2 ^ 8) b3
            (omega arith) (omega arith))))

reverse_pairs_as_sum :
    (x : ℕ)
    → x < 2 ^ 32
    → reverse_pairs x
      ≡ x / 2 ^ 16 % 2 ^ 8 * 2 ^ 24 + x / 2 ^ 24 * 2 ^ 16 + x % 2 ^ 8 * 2 ^ 8 + x / 2 ^ 8 % 2 ^ 8
unfolding reverse_pairs
reverse_pairs_as_sum x h =
    let b0 = x % 2 ^ 8 in
    let b1 = x / 2 ^ 8 % 2 ^ 8 in
    let b2 = x / 2 ^ 16 % 2 ^ 8 in
    let b3 = x / 2 ^ 24 in
    let halves : x ≡ x / 2 ^ 16 * 2 ^ 16 + x % 2 ^ 16 = omega arith in
    let low : bit_and x 0x00FF00FF ≡ b2 * 2 ^ 16 + b0 =
      ap (λ (t : ℕ). bit_and t 0x00FF00FF) halves
      ∙ bit_and_split 16 (x / 2 ^ 16) 0xFF (x % 2 ^ 16) 0xFF (omega arith) (omega arith)
      ∙ rw (bit_and_mask 8 (x / 2 ^ 16), bit_and_mask 8 (x % 2 ^ 16)) (omega arith) in
    let high : bit_and x 0xFF00FF00 ≡ b3 * 2 ^ 24 + b1 * 2 ^ 8 =
      ap (λ (t : ℕ). bit_and t 0xFF00FF00) halves
      ∙ bit_and_split 16 (x / 2 ^ 16) 0xFF00 (x % 2 ^ 16) 0xFF00 (omega arith) (omega arith)
      ∙ rw (field_at 8 (x / 2 ^ 16), field_at 8 (x % 2 ^ 16)) (omega arith) in
    let up : u32 ((b2 * 2 ^ 16 + b0) * 2 ^ 8) ≡ b2 * 2 ^ 24 + b0 * 2 ^ 8 = omega arith in
    let down : (b3 * 2 ^ 24 + b1 * 2 ^ 8) / 2 ^ 8 ≡ b3 * 2 ^ 16 + b1 = omega arith in
    rw (low, high, up, down) (joined b2 b0 b3 b1 (omega arith) (omega arith) (omega arith))
  where
    joined :
        (a b c d : ℕ)
        → b < 2 ^ 8
        → c < 2 ^ 8
        → d < 2 ^ 8
        → bit_or (a * 2 ^ 24 + b * 2 ^ 8) (c * 2 ^ 16 + d) ≡ a * 2 ^ 24 + c * 2 ^ 16 + b * 2 ^ 8 + d
    joined a b c d hb hc hd =
        let left : a * 2 ^ 24 + b * 2 ^ 8 ≡ a * 256 * 2 ^ 16 + b * 2 ^ 8 = omega arith in
        rw left (
          bit_or_split 16 (a * 256) c (b * 2 ^ 8) d (omega arith) (omega arith)
          ∙ rw (bit_or-sum 8 a (a * 256) c refl hc, bit_or-sum 8 b (b * 2 ^ 8) d refl hd)
              (omega arith))

-- REV puts byte `i` of a word at place `3 - i`, REV16 exchanges the bytes within each half, and
-- each of them undoes itself, on every 32-bit word.
pub reversal :
    (x : ℕ)
    → x < 2 ^ 32
    → (byte 0 (reverse_bytes x) ≡ byte 3 x)
      × (byte 1 (reverse_bytes x) ≡ byte 2 x)
      × (byte 2 (reverse_bytes x) ≡ byte 1 x)
      × (byte 3 (reverse_bytes x) ≡ byte 0 x)
      × (byte 0 (reverse_pairs x) ≡ byte 1 x)
      × (byte 1 (reverse_pairs x) ≡ byte 0 x)
      × (byte 2 (reverse_pairs x) ≡ byte 3 x)
      × (byte 3 (reverse_pairs x) ≡ byte 2 x)
      × (reverse_bytes (reverse_bytes x) ≡ x)
      × (reverse_pairs (reverse_pairs x) ≡ x)
reversal x h =
    let e = reverse_bytes_as_sum x h in
    let p = reverse_pairs_as_sum x h in
    (
      omega arith,
      omega arith,
      omega arith,
      omega arith,
      omega arith,
      omega arith,
      omega arith,
      omega arith,
      omega (arith, reverse_bytes_as_sum (reverse_bytes x) (omega arith)),
      omega (arith, reverse_pairs_as_sum (reverse_pairs x) (omega arith)),
    )
