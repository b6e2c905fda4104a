-- ===== src/Thumb/Nzcv.antt =====
-- The condition flags as digits: what the masks of src/instructions.c do to the bits of `xpsr`.
use Prim.Native.Nat.{min}
use picoemu.Base.{
  ℕ, zero, suc, ◌+◌, ◌*◌, ◌/◌, ◌%◌, ◌^◌, ◌≤◌, ◌<◌, ◌≡◌, refl, ap, ◌∙◌, bit_and, bit_or, bit_xor,
  Bool, true, false, not, ◌==◌, if◌then◌else◌, arith,
}
use native.Mathlib.Nat.{one-le-pow}
use picoemu.Base.Bits.{
  bit_and_mask, bit_and_test, bit_and_high, bit_or_high, bit_or_split, bit_or-zero, zero-bit_or,
  bit_xor_shift, bit_and_shift, bit_xor_digit, bit_and_digit,
}
use picoemu.Thumb.State.{Cpu}
use picoemu.Thumb.Flags.{
  put_carry, update_nz_flags, test, or_if, flag_n, flag_z, flag_c, flag_v, nzcv_mask,
}

-- The digit of a condition.
abbrev pub digit : Bool → ℕ
digit b = if b then 1 else 0

pub digit-lt : (b : Bool) → digit b < 2
digit-lt b = ground arith

-- The four top bits of `xpsr`.
abbrev pub flag_n? : ℕ → ℕ
flag_n? x = x / 2 ^ 31 % 2

abbrev pub flag_z? : ℕ → ℕ
flag_z? x = x / 2 ^ 30 % 2

abbrev pub flag_c? : ℕ → ℕ
flag_c? x = x / 2 ^ 29 % 2

abbrev pub flag_v? : ℕ → ℕ
flag_v? x = x / 2 ^ 28 % 2

-- `|` of a flag over known top bits `a`, in front of the 28 low bits.
or_top :
    (a m lo : ℕ) → lo < 2 ^ 28 → bit_or (a * 2 ^ 28 + lo) (m * 2 ^ 28) ≡ bit_or a m * 2 ^ 28 + lo
or_top a m lo h =
    let e : m * 2 ^ 28 ≡ m * 2 ^ 28 + 0 = omega arith in
    ap (bit_or (a * 2 ^ 28 + lo)) e
    ∙ bit_or_split 28 a m lo 0 h (omega arith)
    ∙ omega (arith, bit_or-zero lo)

or_if_top :
    (b : Bool) (m a lo : ℕ)
    → lo < 2 ^ 28
    → or_if b (m * 2 ^ 28) (a * 2 ^ 28 + lo) ≡ or_if b m a * 2 ^ 28 + lo
or_if_top true m a lo h = or_top a m lo h
or_if_top false m a lo h = refl

nibble :
    (z n c v : Bool)
    → or_if v 1 (or_if c 2 (or_if n 8 (or_if z 4 0)))
      ≡ 8 * digit n + 4 * digit z + 2 * digit c + digit v
nibble z n c v = ground arith

-- Four conditions set in turn over cleared flags.
pub set_in_turn :
    (z n c v : Bool) (lo : ℕ)
    → lo < 2 ^ 28
    → or_if v flag_v (or_if c flag_c (or_if n flag_n (or_if z flag_z lo)))
      ≡ (8 * digit n + 4 * digit z + 2 * digit c + digit v) * 2 ^ 28 + lo
set_in_turn z n c v lo h =
    ap (λ (t : ℕ). or_if v flag_v (or_if c flag_c (or_if n flag_n (or_if z flag_z t)))) {x = lo}
      {y = 0 * 2 ^ 28 + lo} (omega arith)
    ∙ ap (λ (t : ℕ). or_if v flag_v (or_if c flag_c (or_if n flag_n t))) (or_if_top z 4 0 lo h)
    ∙ ap (λ (t : ℕ). or_if v flag_v (or_if c flag_c t)) (or_if_top n 8 (or_if z 4 0) lo h)
    ∙ ap (λ (t : ℕ). or_if v flag_v t) (or_if_top c 2 (or_if n 8 (or_if z 4 0)) lo h)
    ∙ or_if_top v 1 (or_if c 2 (or_if n 8 (or_if z 4 0))) lo h
    ∙ ap (λ (t : ℕ). t * 2 ^ 28 + lo) (nibble z n c v)

-- `(xpsr & ~NZCV) | flags` for flags that were collected in a variable of their own.
pub replace_nzcv :
    (z n c v : Bool) (x : ℕ)
    → bit_or
        (bit_and x nzcv_mask)
        (or_if v flag_v (or_if c flag_c (or_if n flag_n (or_if z flag_z 0))))
      ≡ (8 * digit n + 4 * digit z + 2 * digit c + digit v) * 2 ^ 28 + x % 2 ^ 28
replace_nzcv z n c v x =
    let top = 8 * digit n + 4 * digit z + 2 * digit c + digit v in
    let flags : or_if v flag_v (or_if c flag_c (or_if n flag_n (or_if z flag_z 0))) ≡ top * 2 ^ 28 =
      set_in_turn z n c v 0 (omega arith) ∙ omega arith in
    rw (flags, bit_and_mask 28 x)
      (ap (λ (t : ℕ). bit_or t (top * 2 ^ 28)) {x = x % 2 ^ 28} {y = 0 * 2 ^ 28 + x % 2 ^ 28}
          (omega arith)
        ∙ or_top 0 top (x % 2 ^ 28) (omega arith)
        ∙ rw (zero-bit_or top))

-- The same flags set one by one in `xpsr` itself.
pub set_nzcv :
    (z n c v : Bool) (x : ℕ)
    → or_if v flag_v (or_if c flag_c (or_if n flag_n (or_if z flag_z (bit_and x nzcv_mask))))
      ≡ (8 * digit n + 4 * digit z + 2 * digit c + digit v) * 2 ^ 28 + x % 2 ^ 28
set_nzcv z n c v x = rw (bit_and_mask 28 x) (set_in_turn z n c v (x % 2 ^ 28) (omega arith))

-- A test of one bit reads its digit.
pub test_bit : (k x : ℕ) → test x (1 * 2 ^ k) ≡ (x / 2 ^ k % 2 == 1)
test_bit k x =
    let one = one-le-pow k 2 (omega arith) in
    rw (bit_and_test k x 1, bit_and_mask 1 (x / 2 ^ k)) (by_digit (x / 2 ^ k % 2) (omega arith) one)
  where
    by_digit : (d : ℕ) → d < 2 → 1 ≤ 2 ^ k → not (d * 2 ^ k == 0) ≡ (d == 1)
    by_digit zero h p = ground arith
    by_digit (suc zero) h p = ground arith
    by_digit (suc (suc d)) h p = absurd (omega arith)

-- The sign of `(a ^ r) & (b ^ r)`.
pub sign_of_and_xor :
    (a b c d : ℕ)
    → a < 2 ^ 32
    → b < 2 ^ 32
    → c < 2 ^ 32
    → d < 2 ^ 32
    → bit_and (bit_xor a b) (bit_xor c d) / 2 ^ 31
      ≡ min ((a / 2 ^ 31 + b / 2 ^ 31) % 2) ((c / 2 ^ 31 + d / 2 ^ 31) % 2)
sign_of_and_xor a b c d ha hb hc hd =
    bit_and_shift 31 (bit_xor a b) (bit_xor c d)
    ∙ rw
        (
          bit_xor_shift 31 a b,
          bit_xor_shift 31 c d,
          bit_xor_digit (a / 2 ^ 31) (b / 2 ^ 31) (omega arith) (omega arith),
          bit_xor_digit (c / 2 ^ 31) (d / 2 ^ 31) (omega arith) (omega arith),
        )
        (bit_and_digit _ _ (omega arith) (omega arith))

-- N and Z are those of `result`; the 30 other bits are those of `old`.
pub record IsNz (result old new : ℕ) : Type 0 where
  pub negative : flag_n? new ≡ result / 2 ^ 31
  pub is_zero : flag_z? new ≡ digit (result == 0)
  pub kept : new % 2 ^ 30 ≡ old % 2 ^ 30
  pub is_word : new < 2 ^ 32

or_above : (x m : ℕ) → bit_or (x % 2 ^ 30) (m * 2 ^ 30) ≡ m * 2 ^ 30 + x % 2 ^ 30
or_above x m =
    let e : x % 2 ^ 30 / 2 ^ 30 ≡ 0 = omega arith in
    bit_or_high 30 (x % 2 ^ 30) m ∙ rw (e, zero-bit_or m) (omega arith)

pub update_flags-IsNz :
    (result : ℕ) (c : Cpu) → result < 2 ^ 32 → IsNz result c.xpsr (update_nz_flags result c).xpsr
unfolding update_nz_flags
update_flags-IsNz result c h =
    rw (bit_and_mask 30 c.xpsr)
      (ground (arith, or_above c.xpsr 0, or_above c.xpsr 1, or_above c.xpsr 2))

-- `FLAG_C` set or cleared, with every other bit kept.
bit_or_one : (d : ℕ) → d < 2 → bit_or d 1 ≡ 1
bit_or_one zero h = refl
bit_or_one (suc zero) h = refl
bit_or_one (suc (suc d)) h = absurd (omega arith)

or_one : (a : ℕ) → bit_or a 1 ≡ a / 2 * 2 + 1
or_one a =
    let e : a ≡ a / 2 * 2 ^ 1 + a % 2 = omega arith in
    ap (λ (t : ℕ). bit_or t 1) e
    ∙ bit_or_split 1 (a / 2) 0 (a % 2) 1 (omega arith) (omega arith)
    ∙ rw (bit_or-zero (a / 2), bit_or_one (a % 2) (omega arith))

pub put_carry_lem :
    (b : Bool) (c : Cpu)
    → c.xpsr < 2 ^ 32
    → (put_carry b c).xpsr ≡ c.xpsr / 2 ^ 30 * 2 ^ 30 + digit b * 2 ^ 29 + c.xpsr % 2 ^ 29
put_carry_lem true c h = bit_or_high 29 c.xpsr 1 ∙ rw (or_one (c.xpsr / 2 ^ 29)) (omega arith)
put_carry_lem false c h =
    bit_and_high 29 c.xpsr 6
    ∙ rw (bit_and_test 1 (c.xpsr / 2 ^ 29) 3, bit_and_mask 2 (c.xpsr / 2 ^ 29 / 2 ^ 1))
        (omega arith)
