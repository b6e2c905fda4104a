-- ===== src/Thumb/Shifts.antt =====
-- The shifts by a constant of src/instructions.c: the value stored and the carry shifted out.
use picoemu.Base.{
  refl, ℕ, ◌+◌, ◌-◌, ◌*◌, ◌/◌, ◌%◌, ◌∙◌, if◌then◌else◌, ◌^◌, ◌≤◌, ◌<◌, ◌≡◌, ap, ◌≢◌, bit_and, Bool,
  true, false, ◌==◌, ltb, Bool-cases, inl, inr, lt→ltb, ltb→lt, ltb→le, le→ltb, ◌<<◌, u32, asr32,
  not32, arith,
}
use native.Mathlib.Nat.{one-le-pow}
use picoemu.Base.Bits.{bit_and_mask}
use picoemu.Base.Int.{ℤ, pos, negsuc, signed32}
use picoemu.Thumb.State.{Cpu, set_reg, IsWord}
use picoemu.Thumb.Flags.{bits, test, put_carry, update_nz_flags}
use picoemu.Thumb.Nzcv.{
  digit, digit-lt, flag_n?, flag_z?, flag_c?, flag_v?, test_bit, update_flags-IsNz, put_carry_lem,
}
use picoemu.Thumb.Shift.{
  instr_shift_logical_left, instr_shift_logical_right, instr_shift_arithmetic_right,
}

-- `result` stands in `rd`, N and Z are its own, C is `carry`, V and the low bits are the old ones,
-- and so are all other registers and fields.
pub record Shifts (before after : Cpu) (rd result carry : ℕ) : Type 0 where
  pub value : after.r rd ≡ result
  pub others : (j : ℕ) → rd ≢ j → after.r j ≡ before.r j
  pub negative : flag_n? after.xpsr ≡ result / 2 ^ 31
  pub is_zero : flag_z? after.xpsr ≡ digit (result == 0)
  pub carry_out : flag_c? after.xpsr ≡ carry
  pub overflow_kept : flag_v? after.xpsr ≡ flag_v? before.xpsr
  pub kept : after.xpsr % 2 ^ 28 ≡ before.xpsr % 2 ^ 28
  pub rest : after ≡ record before { r = after.r; xpsr = after.xpsr }

-- N and Z change above bit 29, C is bit 29.
merge :
    (old mid new d : ℕ)
    → d < 2
    → new % 2 ^ 30 ≡ mid % 2 ^ 30
    → mid ≡ old / 2 ^ 30 * 2 ^ 30 + d * 2 ^ 29 + old % 2 ^ 29
    → (flag_c? new ≡ d) × (flag_v? new ≡ flag_v? old) × (new % 2 ^ 28 ≡ old % 2 ^ 28)
merge old mid new d hd e f = omega arith

module _ (c : Cpu) (rd result : ℕ) (b : Bool) (hx : c.xpsr < 2 ^ 32) (hr : result < 2 ^ 32) where
  pub stored-Shifts :
      Shifts c (update_nz_flags result (set_reg rd result (put_carry b c))) rd result (digit b)
  stored-Shifts =
      let nz = update_flags-IsNz result (set_reg rd result (put_carry b c)) hr in
      let m =
        merge c.xpsr (put_carry b c).xpsr _ (digit b) (digit-lt b) nz.kept (put_carry_lem b c hx) in
      record {
        value = unfold update_nz_flags in ground arith;
        others = λ j h. unfold update_nz_flags in ground arith;
        negative = nz.negative;
        is_zero = nz.is_zero;
        carry_out = m.0;
        overflow_kept = m.1;
        kept = m.2;
        rest = unfold update_nz_flags in refl;
      }

==_self : (a : ℕ) → (a == a) ≡ true
==_self a = ground arith

pub ==_ne : (a b : ℕ) → a ≢ b → (a == b) ≡ false
==_ne a b h = ground arith

-- The carry as a digit, from the mask that the code tests.
pub digit-test : (k x : ℕ) → digit (test x (1 << k)) ≡ x / 2 ^ k % 2
digit-test k x = rw (test_bit k x) (by_digit (x / 2 ^ k % 2) (omega arith))
  where
    by_digit : (d : ℕ) → d < 2 → digit (d == 1) ≡ d
    by_digit d h = ground arith

-- An arithmetic shift divides the integer, rounding down.
abbrev pub floor_div : ℤ → ℕ → ℤ
floor_div (pos n) d = pos (n / d)
floor_div (negsuc n) d = negsuc (n / d)

pub asr32-lt : (x k : ℕ) → x < 2 ^ 32 → asr32 x k < 2 ^ 32
asr32-lt x k h = let one = one-le-pow k 2 (omega arith) in ground arith

below_half : (x d : ℕ) → 1 ≤ d → x < 2 ^ 31 → x / d < 2 ^ 31
below_half x d hd h = omega arith

pub signed32-asr32 : (x k : ℕ) → x < 2 ^ 32 → signed32 (asr32 x k) ≡ floor_div (signed32 x) (2 ^ k)
signed32-asr32 x k h =
    let one = one-le-pow k 2 (omega arith) in
    elim (Bool-cases (ltb x (2 ^ 31))) [
      | inl low ↦
          rw low
            (rw (lt→ltb (x / 2 ^ k) (2 ^ 31) (below_half x (2 ^ k) one (ltb→lt x (2 ^ 31) low))))
      | inr high ↦
          let n = not32 x in
          let q = below_half n (2 ^ k) one (omega (arith, ltb→le x (2 ^ 31) high)) in
          let same : 2 ^ 32 - x - 1 ≡ n = omega arith in
          rw (high, same)
            (rw (le→ltb (not32 (n / 2 ^ k)) (2 ^ 31) (omega arith))
              (ap negsuc {x = 2 ^ 32 - not32 (n / 2 ^ k) - 1} {y = n / 2 ^ k} (omega arith)))
    ]

imm5-lt : (instr : ℕ) → bits instr 6 0x1F < 32
imm5-lt instr = rw (bit_and_mask 5 (instr / 2 ^ 6)) (omega arith)

-- A shift right by `k` keeps a word a word.
pub div-lt : (x k : ℕ) → x < 2 ^ 32 → x / 2 ^ k < 2 ^ 32
div-lt x k h = let one = one-le-pow k 2 (omega arith) in omega arith

-- Every 16-bit instruction with a shift constant k from 1 to 31 and every valid state: LSL stores
-- the source times 2^k cut to 32 bits, with bit 32-k as the carry; LSR stores the source over 2^k
-- and ASR a word whose integer is that of the source over 2^k rounded down, with bit k-1 as the
-- carry. N and Z follow the result; V, the low status bits, the other registers and the
-- other fields of the core are kept.
pub shift_by_constant :
    (instr : ℕ) (c : Cpu)
    → IsWord c
    → bits instr 6 0x1F ≢ 0
    → let k = bits instr 6 0x1F in
      let x = c.r (bits instr 3 0x07) in
      let rd = bit_and instr 0x07 in
      Shifts c (instr_shift_logical_left instr c) rd (u32 (x * 2 ^ k)) (x / 2 ^ (32 - k) % 2)
      × Shifts c (instr_shift_logical_right instr c) rd (x / 2 ^ k) (x / 2 ^ (k - 1) % 2)
      × Shifts c (instr_shift_arithmetic_right instr c) rd (asr32 x k) (x / 2 ^ (k - 1) % 2)
      × (signed32 (asr32 x k) ≡ floor_div (signed32 x) (2 ^ k))
unfolding instr_shift_logical_left instr_shift_logical_right instr_shift_arithmetic_right
shift_by_constant instr c v ne =
    let k = bits instr 6 0x1F in
    let x = c.r (bits instr 3 0x07) in
    let rd = bit_and instr 0x07 in
    (
      rw (==_ne k 0 ne, ==_self rd, ← digit-test (32 - k) x)
          (stored-Shifts c rd (u32 (x * 2 ^ k)) _ v.status (omega arith)),
      rw (==_ne k 0 ne, ==_self rd, ← digit-test (k - 1) x)
          (stored-Shifts c rd (x / 2 ^ k) _ v.status (div-lt x k (v.regs _))),
      rw (==_ne k 0 ne, ==_self rd, ← digit-test (k - 1) x)
          (stored-Shifts c rd (asr32 x k) _ v.status (asr32-lt x k (v.regs _))),
      signed32-asr32 x k (v.regs _),
    )

pub digit_top : (x : ℕ) → x < 2 ^ 32 → digit (test x 0x80000000) ≡ x / 2 ^ 31
digit_top x h = digit-test 31 x ∙ omega arith

-- Where the two registers are one, the source that the code tests has just been cleared.
cleared_source :
    (x : ℕ) (same : Bool)
    → x < 2 ^ 32
    → digit (test (if same then 0 else x) 0x80000000) ≡ (if same then 0 else x / 2 ^ 31)
cleared_source x true h = refl
cleared_source x false h = digit_top x h

filled :
    (c : Cpu) (rd : ℕ) (b : Bool)
    → c.xpsr < 2 ^ 32
    → let shifted =
        if b then set_reg rd 0xFFFFFFFF (put_carry b c) else set_reg rd 0 (put_carry b c) in
      Shifts c (update_nz_flags (shifted.r rd) shifted) rd (if b then 0xFFFFFFFF else 0) (digit b)
filled c rd true h = rw (==_self rd) (stored-Shifts c rd 0xFFFFFFFF true h (omega arith))
filled c rd false h = rw (==_self rd) (stored-Shifts c rd 0 false h (omega arith))

-- Every 16-bit instruction whose shift constant is 0, and every valid state. LSR, which then
-- shifts by 32, stores 0 with bit 31 of the source as the carry, except that the carry is always
-- 0 when source and destination are one register. ASR, which also shifts by 32, stores 32 copies
-- of bit 31 and makes it the carry. N and Z follow the result; all else is kept.
pub shift_by_32 :
    (instr : ℕ) (c : Cpu)
    → IsWord c
    → bits instr 6 0x1F ≡ 0
    → let x = c.r (bits instr 3 0x07) in
      let rd = bit_and instr 0x07 in
      Shifts c
        (instr_shift_logical_right instr c)
        rd
        0
        (if rd == bits instr 3 0x07 then 0 else x / 2 ^ 31)
      × Shifts c
          (instr_shift_arithmetic_right instr c)
          rd
          (if test x 0x80000000 then 0xFFFFFFFF else 0)
          (x / 2 ^ 31)
unfolding instr_shift_logical_right instr_shift_arithmetic_right
shift_by_32 instr c v e =
    let rs = bits instr 3 0x07 in
    let rd = bit_and instr 0x07 in
    (
      rw (e, ← cleared_source (c.r rs) (rd == rs) (v.regs rs), ==_self rd)
          (stored-Shifts c rd 0 _ v.status (omega arith)),
      rw (e, ← digit_top (c.r rs) (v.regs rs)) (filled c rd (test (c.r rs) 0x80000000) v.status),
    )
