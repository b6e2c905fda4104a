-- ===== src/Base/Bits.antt =====
-- `&`, `|` and `^` at variables: one law for the lowest digit, one that splits at any bit, and
-- masks and disjoint fields as arithmetic.
use Prim.Native.Nat.{
  ℕ, zero, suc, ◌+◌, ◌-◌, ◌*◌, ◌/◌, ◌%◌, ◌^◌, ◌≤◌, ◌<◌, min, max, differ, digits, bitwise,
}
use Prim.Native.Nat.{bit_and, bit_or, bit_xor, bit_and-bitwise, bit_or-bitwise, bit_xor-bitwise}
use mathlib.Core.Path.{◌≡◌, refl, ap, ap₂, ◌∙◌}
use mathlib.Core.Bool.{Bool, true, ◌&&◌}
use native.Mathlib.Nat.{pow-suc, one-le-pow}
use native.Mathlib.Omega.{arith}

-- More fuel than the first number changes nothing.
module _ (left : ℕ → ℕ) (op : ℕ → ℕ → ℕ) where
  fuel_lem : (k n a b : ℕ) → a ≤ k → a ≤ n → digits left op k a b ≡ digits left op n a b
  fuel_lem zero zero a b p q = refl
  fuel_lem zero (suc n) zero b p q = refl
  fuel_lem (suc k) zero zero b p q = refl
  fuel_lem (suc k) (suc n) zero b p q = refl
  fuel_lem zero (suc n) (suc a) b p q = absurd (omega arith)
  fuel_lem (suc k) zero (suc a) b p q = absurd (omega arith)
  fuel_lem (suc k) (suc n) (suc a) b p q =
      rw (fuel_lem k n (suc a / 2) (b / 2) (omega arith) (omega arith))

  low_digit :
      (a b : ℕ)
      → bitwise left op (suc a) b ≡ bitwise left op (suc a / 2) (b / 2) * 2 + op (suc a % 2) (b % 2)
  low_digit a b =
      omega (arith, fuel_lem a (suc a / 2) (suc a / 2) (b / 2) (omega arith) (omega arith))

-- The lowest digit of the result is `f` of the lowest digits, and the rest goes through.
abbrev DigitLaw : (ℕ → ℕ → ℕ) → (ℕ → ℕ → ℕ) → Type 0
DigitLaw op f = (x y : ℕ) → op x y ≡ op (x / 2) (y / 2) * 2 + f (x % 2) (y % 2)

pub bit_and_step : DigitLaw bit_and min
bit_and_step (suc x) y = simp bit_and-bitwise (low_digit (λ d. 0) min x y)
bit_and_step zero y = simp bit_and-bitwise (omega arith)

pub bit_or_step : DigitLaw bit_or max
bit_or_step (suc x) y = simp bit_or-bitwise (low_digit (λ d. d) max x y)
bit_or_step zero y = simp bit_or-bitwise (omega arith)

bit_xor_step : DigitLaw bit_xor differ
bit_xor_step (suc x) y = simp bit_xor-bitwise (low_digit (λ d. d) differ x y)
bit_xor_step zero y = simp bit_xor-bitwise (ground arith)

-- What holds of an operation whose lowest digit is `f` of the lowest digits.
module _ (op f : ℕ → ℕ → ℕ) (step : DigitLaw op f) (zeros : op 0 0 ≡ 0) where
  double : (q k : ℕ) → q * 2 ^ suc k ≡ 2 * (q * 2 ^ k)
  double q k = omega (arith, ap (λ (t : ℕ). q * t) (pow-suc 2 k))

  half_of : (q k r : ℕ) → (q * 2 ^ suc k + r) / 2 ≡ q * 2 ^ k + r / 2
  half_of q k r = omega (arith, double q k)

  parity_of : (q k r : ℕ) → (q * 2 ^ suc k + r) % 2 ≡ r % 2
  parity_of q k r = omega (arith, double q k)

  split :
      (k a b c d : ℕ)
      → c < 2 ^ k
      → d < 2 ^ k
      → op (a * 2 ^ k + c) (b * 2 ^ k + d) ≡ op a b * 2 ^ k + op c d
  split zero a b c d p q =
      let ec : c ≡ 0 = omega arith in
      let ed : d ≡ 0 = omega arith in rw (ec, ed, zeros) (ground arith)
  split (suc k) a b c d p q =
      rw
        (
          step (a * 2 ^ suc k + c) (b * 2 ^ suc k + d),
          half_of a k c,
          half_of b k d,
          parity_of a k c,
          parity_of b k d,
        )
        (omega (
          arith,
          split k a b (c / 2) (d / 2) (omega (arith, pow-suc 2 k)) (omega (arith, pow-suc 2 k)),
          step c d,
          double (op a b) k,
        ))

  below :
      ((x y : ℕ) → x < 2 → y < 2 → f x y < 2) → (k a b : ℕ) → a < 2 ^ k → b < 2 ^ k → op a b < 2 ^ k
  below small zero a b p q =
      let ea : a ≡ 0 = omega arith in
      let eb : b ≡ 0 = omega arith in rw (ea, eb, zeros) (omega arith)
  below small (suc k) a b p q = omega (
    arith,
    step a b,
    pow-suc 2 k,
    small (a % 2) (b % 2) (omega arith) (omega arith),
    below small k (a / 2) (b / 2) (omega (arith, pow-suc 2 k)) (omega (arith, pow-suc 2 k)),
  )

module _ (x y : ℕ) (hx : x < 2) (hy : y < 2) where
  min-lt-two : min x y < 2
  min-lt-two = omega arith

  max-lt-two : max x y < 2
  max-lt-two = omega arith

differ-lt-two : (x y : ℕ) → x < 2 → y < 2 → differ x y < 2
differ-lt-two zero y p q = q
differ-lt-two (suc zero) zero p q = omega arith
differ-lt-two (suc zero) (suc zero) p q = omega arith
differ-lt-two (suc zero) (suc (suc y)) p q = absurd (omega arith)
differ-lt-two (suc (suc x)) y p q = absurd (omega arith)

-- Fields of `k` low bits and of the bits above are combined apart.
module _ (k a b c d : ℕ) (p : c < 2 ^ k) (q : d < 2 ^ k) where
  pub bit_and_split : bit_and (a * 2 ^ k + c) (b * 2 ^ k + d) ≡ bit_and a b * 2 ^ k + bit_and c d
  bit_and_split = split bit_and min bit_and_step refl k a b c d p q

  pub bit_or_split : bit_or (a * 2 ^ k + c) (b * 2 ^ k + d) ≡ bit_or a b * 2 ^ k + bit_or c d
  bit_or_split = split bit_or max bit_or_step refl k a b c d p q

  pub bit_xor_split : bit_xor (a * 2 ^ k + c) (b * 2 ^ k + d) ≡ bit_xor a b * 2 ^ k + bit_xor c d
  bit_xor_split = split bit_xor differ bit_xor_step refl k a b c d p q

module _ (k a b : ℕ) (p : a < 2 ^ k) (q : b < 2 ^ k) where
  pub bit_and-lt : bit_and a b < 2 ^ k
  bit_and-lt = below bit_and min bit_and_step refl min-lt-two k a b p q

  pub bit_or-lt : bit_or a b < 2 ^ k
  bit_or-lt = below bit_or max bit_or_step refl max-lt-two k a b p q

  pub bit_xor-lt : bit_xor a b < 2 ^ k
  bit_xor-lt = below bit_xor differ bit_xor_step refl differ-lt-two k a b p q

-- By the number of halvings that the first number bears.
or_zero_fuel : (n a : ℕ) → a ≤ n → bit_or a 0 ≡ a
or_zero_fuel n zero h = refl
or_zero_fuel zero (suc a) h = absurd (omega arith)
or_zero_fuel (suc n) (suc a) h =
    omega (arith, bit_or_step (suc a) 0, or_zero_fuel n (suc a / 2) (omega arith))

and_zero_fuel : (n a : ℕ) → a ≤ n → bit_and a 0 ≡ 0
and_zero_fuel n zero h = refl
and_zero_fuel zero (suc a) h = absurd (omega arith)
and_zero_fuel (suc n) (suc a) h =
    omega (arith, bit_and_step (suc a) 0, and_zero_fuel n (suc a / 2) (omega arith))

pub bit_or-zero : (a : ℕ) → bit_or a 0 ≡ a
bit_or-zero a = or_zero_fuel a a (omega arith)

pub bit_and-zero : (a : ℕ) → bit_and a 0 ≡ 0
bit_and-zero a = and_zero_fuel a a (omega arith)

pub zero-bit_or : (a : ℕ) → bit_or 0 a ≡ a
zero-bit_or a = bit_or-bitwise 0 a

ones : (k r : ℕ) → r < 2 ^ k → bit_and r (2 ^ k - 1) ≡ r
ones zero r h = let e : r ≡ 0 = omega arith in rw e
ones (suc k) r h =
    let halved : (2 ^ suc k - 1) / 2 ≡ 2 ^ k - 1 = omega (arith, pow-suc 2 k, one-le-pow k 2) in
    let odd : (2 ^ suc k - 1) % 2 ≡ 1 = omega (arith, pow-suc 2 k, one-le-pow k 2) in
    rw (bit_and_step r (2 ^ suc k - 1), halved, odd, ones k (r / 2) (omega (arith, pow-suc 2 k)))
      (omega arith)

quotient_rest : (k a : ℕ) → (a ≡ a / 2 ^ k * 2 ^ k + a % 2 ^ k) × (a % 2 ^ k < 2 ^ k)
quotient_rest k a = let big = one-le-pow k 2 (omega arith) in (omega arith, omega arith)

pub quotient_of : (k q r : ℕ) → r < 2 ^ k → (q * 2 ^ k + r) / 2 ^ k ≡ q
quotient_of k q r h = grind arith

-- A mask of `k` ones takes the remainder by `2 ^ k`.
pub bit_and_mask : (k a : ℕ) → bit_and a (2 ^ k - 1) ≡ a % 2 ^ k
bit_and_mask k a =
    let (e, small) = quotient_rest k a in
    let big : 2 ^ k - 1 < 2 ^ k = omega (arith, one-le-pow k 2) in
    ap₂ bit_and {u = 2 ^ k - 1} {v = 0 * 2 ^ k + (2 ^ k - 1)} e (omega arith)
    ∙ bit_and_split k (a / 2 ^ k) 0 (a % 2 ^ k) (2 ^ k - 1) small big
    ∙ rw (bit_and-zero (a / 2 ^ k), ones k (a % 2 ^ k) small) (omega arith)

-- Disjoint fields are joined by a sum.
pub bit_or_fields : (k q r : ℕ) → r < 2 ^ k → bit_or (q * 2 ^ k) r ≡ q * 2 ^ k + r
bit_or_fields k q r h =
    let big : 0 < 2 ^ k = omega arith in
    ap₂ bit_or {x = q * 2 ^ k} {y = q * 2 ^ k + 0} {u = r} {v = 0 * 2 ^ k + r} (omega arith)
      (omega arith)
    ∙ bit_or_split k q 0 0 r big h
    ∙ rw (bit_or-zero q, zero-bit_or r)

-- What a mask does to the bits from `k` up, when it keeps all the bits below.
pub bit_and_high :
    (k x m : ℕ) → bit_and x (m * 2 ^ k + (2 ^ k - 1)) ≡ bit_and (x / 2 ^ k) m * 2 ^ k + x % 2 ^ k
bit_and_high k x m =
    let (e, small) = quotient_rest k x in
    let big : 2 ^ k - 1 < 2 ^ k = omega (arith, one-le-pow k 2) in
    ap (λ (t : ℕ). bit_and t (m * 2 ^ k + (2 ^ k - 1))) e
    ∙ bit_and_split k (x / 2 ^ k) m (x % 2 ^ k) (2 ^ k - 1) small big
    ∙ omega (arith, ones k (x % 2 ^ k) small)

-- The same when it drops all the bits below.
pub bit_and_test : (k x m : ℕ) → bit_and x (m * 2 ^ k) ≡ bit_and (x / 2 ^ k) m * 2 ^ k
bit_and_test k x m =
    let (e, small) = quotient_rest k x in
    let big : 0 < 2 ^ k = omega arith in
    ap (λ (t : ℕ). bit_and t (m * 2 ^ k)) e
    ∙ ap (bit_and (x / 2 ^ k * 2 ^ k + x % 2 ^ k)) {x = m * 2 ^ k} {y = m * 2 ^ k + 0} (omega arith)
    ∙ bit_and_split k (x / 2 ^ k) m (x % 2 ^ k) 0 small big
    ∙ omega (arith, bit_and-zero (x % 2 ^ k))

pub bit_or_high : (k x m : ℕ) → bit_or x (m * 2 ^ k) ≡ bit_or (x / 2 ^ k) m * 2 ^ k + x % 2 ^ k
bit_or_high k x m =
    let (e, small) = quotient_rest k x in
    let big : 0 < 2 ^ k = omega arith in
    ap (λ (t : ℕ). bit_or t (m * 2 ^ k)) e
    ∙ ap (bit_or (x / 2 ^ k * 2 ^ k + x % 2 ^ k)) {x = m * 2 ^ k} {y = m * 2 ^ k + 0} (omega arith)
    ∙ bit_or_split k (x / 2 ^ k) m (x % 2 ^ k) 0 small big
    ∙ omega (arith, bit_or-zero (x % 2 ^ k))

-- Over a small range every value is checked by evaluation.
unfoldable pub holds_below : (ℕ → Bool) → ℕ → Bool
holds_below test zero = true
holds_below test (suc top) = holds_below test top && test top

pub holds_below-at :
    (test : ℕ → Bool) (top x : ℕ) → holds_below test top ≡ true → x < top → test x ≡ true
unfolding holds_below
holds_below-at test (suc top) x all inside = ground (arith, holds_below-at test top x)
holds_below-at test zero x all inside = absurd (omega arith)

-- A shift to the right goes through the operations.
pub bit_xor_shift : (k x y : ℕ) → bit_xor x y / 2 ^ k ≡ bit_xor (x / 2 ^ k) (y / 2 ^ k)
bit_xor_shift k x y =
    let (ex, small) = quotient_rest k x in
    let (ey, small') = quotient_rest k y in
    let low = bit_xor-lt k (x % 2 ^ k) (y % 2 ^ k) small small' in
    ap (λ (t : ℕ). t / 2 ^ k)
      (ap₂ bit_xor ex ey
        ∙ bit_xor_split k (x / 2 ^ k) (y / 2 ^ k) (x % 2 ^ k) (y % 2 ^ k) small small')
    ∙ quotient_of k (bit_xor (x / 2 ^ k) (y / 2 ^ k)) (bit_xor (x % 2 ^ k) (y % 2 ^ k)) low

pub bit_and_shift : (k x y : ℕ) → bit_and x y / 2 ^ k ≡ bit_and (x / 2 ^ k) (y / 2 ^ k)
bit_and_shift k x y =
    let (ex, small) = quotient_rest k x in
    let (ey, small') = quotient_rest k y in
    let low = bit_and-lt k (x % 2 ^ k) (y % 2 ^ k) small small' in
    ap (λ (t : ℕ). t / 2 ^ k)
      (ap₂ bit_and ex ey
        ∙ bit_and_split k (x / 2 ^ k) (y / 2 ^ k) (x % 2 ^ k) (y % 2 ^ k) small small')
    ∙ quotient_of k (bit_and (x / 2 ^ k) (y / 2 ^ k)) (bit_and (x % 2 ^ k) (y % 2 ^ k)) low

pub bit_or_shift : (k x y : ℕ) → bit_or x y / 2 ^ k ≡ bit_or (x / 2 ^ k) (y / 2 ^ k)
bit_or_shift k x y =
    let (ex, small) = quotient_rest k x in
    let (ey, small') = quotient_rest k y in
    let low = bit_or-lt k (x % 2 ^ k) (y % 2 ^ k) small small' in
    ap (λ (t : ℕ). t / 2 ^ k)
      (ap₂ bit_or ex ey
        ∙ bit_or_split k (x / 2 ^ k) (y / 2 ^ k) (x % 2 ^ k) (y % 2 ^ k) small small')
    ∙ quotient_of k (bit_or (x / 2 ^ k) (y / 2 ^ k)) (bit_or (x % 2 ^ k) (y % 2 ^ k)) low

-- The operations on single digits.
pub bit_xor_digit : (x y : ℕ) → x < 2 → y < 2 → bit_xor x y ≡ (x + y) % 2
bit_xor_digit zero y p q = omega (arith, bit_xor-bitwise 0 y)
bit_xor_digit (suc zero) zero p q = refl
bit_xor_digit (suc zero) (suc zero) p q = refl
bit_xor_digit (suc zero) (suc (suc y)) p q = absurd (omega arith)
bit_xor_digit (suc (suc x)) y p q = absurd (omega arith)

pub bit_and_digit : (x y : ℕ) → x < 2 → y < 2 → bit_and x y ≡ min x y
bit_and_digit zero y p q = omega (arith, bit_and-bitwise 0 y)
bit_and_digit (suc zero) zero p q = refl
bit_and_digit (suc zero) (suc zero) p q = refl
bit_and_digit (suc zero) (suc (suc y)) p q = absurd (omega arith)
bit_and_digit (suc (suc x)) y p q = absurd (omega arith)

-- `a | r` where `r` fits below the lowest bit of `a`.
pub bit_or-sum : (k q a r : ℕ) → a ≡ q * 2 ^ k → r < 2 ^ k → bit_or a r ≡ a + r
bit_or-sum k q a r e h = rw e (bit_or_fields k q r h)
