-- ===== src/Base/Scan.antt =====
-- `__builtin_ctz`, the digits of a number, and `x & (x - 1)`, by which loops run over the set bits.
use Prim.Native.Nat.{ℕ, zero, suc, ◌+◌, ◌-◌, ◌*◌, ◌/◌, ◌%◌, ◌^◌, ◌≤◌, ◌<◌, min, max}
use Prim.Native.Nat.{bit_and, bit_or, bit_and-bitwise}
use mathlib.Core.Path.{◌≡◌, refl, sym, ap, ap₂, ◌∙◌}
use mathlib.Core.Logic.{inl, inr}
use native.Mathlib.Nat.{pow-suc, pow-succ', one-le-pow, div-div-eq-div-mul}
use native.Mathlib.Omega.{arith}
use picoemu.Base.Tests.{◌==◌, Bool-cases, if◌then◌else◌}
use picoemu.Base.Bits.{bit_and_split, bit_and_shift, bit_or_shift, bit_and_step, bit_or_step}

-- The number of zeros below the lowest set bit of a number of `width` bits; C leaves `ctz 0` open.
unfoldable pub ctz : ℕ → ℕ → ℕ
ctz zero x = 0
ctz (suc width) x = let rest = ctz width (x / 2) in if x % 2 == 1 then 0 else suc rest

abbrev pub bit : ℕ → ℕ → ℕ
bit x j = x / 2 ^ j % 2

-- A number with a lowest set bit `low`, and the half of what stands above.
pub record LowestBit (width x low : ℕ) : Type 0 where
  pub above : ℕ
  pub inside : low < width
  pub form : x ≡ (2 * above + 1) * 2 ^ low

pub ctz-LowestBit : (width x : ℕ) → 0 < x → x < 2 ^ width → LowestBit width x (ctz width x)
unfolding ctz
ctz-LowestBit zero x pos top = absurd (omega arith)
ctz-LowestBit (suc width) x pos top = elim (Bool-cases (x % 2 == 1)) [
  | inl odd ↦ rw odd (record { above = x / 2; inside = omega arith; form = ground arith })
  | inr even ↦
      let half : x ≡ 2 * (x / 2) = ground arith in
      let rest = ctz-LowestBit width (x / 2) (omega arith) (omega (arith, pow-suc 2 width)) in
      rw even (record {
        above = rest.above;
        inside = omega (arith, rest.inside);
        form = omega (
          arith,
          half,
          rest.form,
          ap (λ (t : ℕ). (2 * rest.above + 1) * t) (pow-suc 2 (ctz width (x / 2))),
        );
      })
]

pub bit-suc : (x j : ℕ) → bit x (suc j) ≡ bit (x / 2) j
bit-suc x j = rw (pow-succ' 2 j, div-div-eq-div-mul x 2 (2 ^ j)) refl

-- The digits of `&` and `|`.
pub bit-bit_and : (x y j : ℕ) → bit (bit_and x y) j ≡ min (bit x j) (bit y j)
bit-bit_and x y j = rw (bit_and_shift j x y, bit_and_step (x / 2 ^ j) (y / 2 ^ j)) (omega arith)

pub bit-bit_or : (x y j : ℕ) → bit (bit_or x y) j ≡ max (bit x j) (bit y j)
bit-bit_or x y j = rw (bit_or_shift j x y, bit_or_step (x / 2 ^ j) (y / 2 ^ j)) (omega arith)

and_even_fuel : (n q : ℕ) → q ≤ n → bit_and q q ≡ q
and_even_fuel n zero h = refl
and_even_fuel zero (suc q) h = absurd (omega arith)
and_even_fuel (suc n) (suc q) h =
    omega (arith, bit_and_step (suc q) (suc q), and_even_fuel n (suc q / 2) (omega arith))

pub bit_and_self : (q : ℕ) → bit_and q q ≡ q
bit_and_self q = and_even_fuel q q (omega arith)

-- `x & (x - 1)` drops the lowest set bit.
pub clear_lowest :
    (b q : ℕ) → bit_and ((2 * q + 1) * 2 ^ b) ((2 * q + 1) * 2 ^ b - 1) ≡ q * 2 ^ suc b
clear_lowest b q =
    let big = one-le-pow b 2 (omega arith) in
    let less : (2 * q + 1) * 2 ^ b - 1 ≡ 2 * q * 2 ^ b + (2 ^ b - 1) = grind arith in
    let same : (2 * q + 1) * 2 ^ b ≡ (2 * q + 1) * 2 ^ b + 0 = omega arith in
    let top : bit_and (2 * q + 1) (2 * q) ≡ 2 * q = omega (
      arith,
      bit_and_step (2 * q + 1) (2 * q),
      ap₂ bit_and {x = (2 * q + 1) / 2} {y = q} {u = 2 * q / 2} {v = q} (omega arith) (omega arith),
      bit_and_self q,
    ) in
    ap₂ bit_and same less
    ∙ bit_and_split b (2 * q + 1) (2 * q) 0 (2 ^ b - 1) (omega arith) (omega arith)
    ∙ rw (top, bit_and-bitwise 0 (2 ^ b - 1)) (omega (arith, ap (λ (t : ℕ). q * t) (pow-suc 2 b)))

bit_half : (q b : ℕ) → q * 2 ^ suc b / 2 ≡ q * 2 ^ b
bit_half q b = omega (arith, ap (λ (t : ℕ). q * t) (pow-suc 2 b))

-- The digits of a number with its lowest set bit `b`, and of what is left without it.
pub bit-below : (b q j : ℕ) → j < b → bit (q * 2 ^ b) j ≡ 0
bit-below zero q j h = absurd (omega arith)
bit-below (suc b) q zero h = omega (arith, bit_half q b, ap (λ (t : ℕ). q * t) (pow-suc 2 b))
bit-below (suc b) q (suc j) h =
    bit-suc (q * 2 ^ suc b) j ∙ rw (bit_half q b) (bit-below b q j (omega arith))

pub bit-lowest : (b q : ℕ) → bit ((2 * q + 1) * 2 ^ b) b ≡ 1
bit-lowest zero q = omega arith
bit-lowest (suc b) q =
    bit-suc ((2 * q + 1) * 2 ^ suc b) b ∙ rw (bit_half (2 * q + 1) b) (bit-lowest b q)

pub bit-above : (b q j : ℕ) → b < j → bit ((2 * q + 1) * 2 ^ b) j ≡ bit (q * 2 ^ suc b) j
bit-above b q zero h = absurd (omega arith)
bit-above zero q (suc j) h =
    bit-suc ((2 * q + 1) * 2 ^ 0) j
    ∙ ap (λ (t : ℕ). bit t j) {x = (2 * q + 1) * 2 ^ 0 / 2} {y = q * 2 ^ 1 / 2} (omega arith)
    ∙ sym (bit-suc (q * 2 ^ 1) j)
bit-above (suc b) q (suc j) h =
    bit-suc ((2 * q + 1) * 2 ^ suc b) j
    ∙ rw (bit_half (2 * q + 1) b, bit-suc (q * 2 ^ suc (suc b)) j, bit_half q (suc b))
        (bit-above b q j (omega arith))

and_le_fuel : (n a b : ℕ) → a ≤ n → bit_and a b ≤ a
and_le_fuel n zero b h = omega (arith, bit_and-bitwise 0 b)
and_le_fuel zero (suc a) b h = absurd (omega arith)
and_le_fuel (suc n) (suc a) b h =
    omega (arith, bit_and_step (suc a) b, and_le_fuel n (suc a / 2) (b / 2) (omega arith))

pub bit_and-le : (a b : ℕ) → bit_and a b ≤ a
bit_and-le a b = and_le_fuel a a b (omega arith)
