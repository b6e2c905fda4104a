-- ===== src/Thumb/RegisterShifts.antt =====
-- LSL, LSR and ASR by a register in src/instructions.c: any amount up to 255.
use picoemu.Base.{
  ℕ, ◌-◌, ◌*◌, ◌/◌, ◌%◌, ◌^◌, ◌<◌, ◌≡◌, ◌≢◌, bit_and, Bool, true, false, ◌==◌, ltb, leb, Bool-cases,
  inl, inr, if◌then◌else◌, u32, asr32, ==_iff, arith,
}
use picoemu.Thumb.State.{Cpu, IsWord}
use picoemu.Thumb.Flags.{test}
use picoemu.Thumb.Shift.{shift_amount, instr_lsls_reg, instr_lsrs_reg, instr_asrs_reg}
use picoemu.Thumb.Shifts.{Shifts, stored-Shifts, ==_ne, digit-test, div-lt, digit_top, asr32-lt}

-- A word, a shift by a register and what is left of it after `s` places.
abbrev pub left_by : ℕ → ℕ → ℕ
left_by x s = if ltb s 32 then u32 (x * 2 ^ s) else 0

abbrev pub right_by : ℕ → ℕ → ℕ
right_by x s = if ltb s 32 then x / 2 ^ s else 0

abbrev pub sign_by : ℕ → ℕ → ℕ
sign_by x s = if ltb s 32 then asr32 x s else if test x 0x80000000 then 0xFFFFFFFF else 0

-- The last bit shifted out: none is left after more than 32 places.
abbrev pub left_carry : ℕ → ℕ → ℕ
left_carry x s = if leb s 32 then x / 2 ^ (32 - s) % 2 else 0

abbrev pub right_carry : ℕ → ℕ → ℕ
right_carry x s = if leb s 32 then x / 2 ^ (s - 1) % 2 else 0

abbrev pub sign_carry : ℕ → ℕ → ℕ
sign_carry x s = if ltb s 32 then x / 2 ^ (s - 1) % 2 else x / 2 ^ 31

leb_of_lt : (s : ℕ) → ltb s 32 ≡ true → leb s 32 ≡ true
leb_of_lt s h = ground arith

leb_of_gt : (s : ℕ) → ltb s 32 ≡ false → (s == 32) ≡ false → leb s 32 ≡ false
leb_of_gt s h e = ground arith

module _ (instr : ℕ) (c : Cpu) (v : IsWord c) (ne : shift_amount instr c ≢ 0) where
  abbrev s : ℕ
  s = shift_amount instr c

  abbrev rd : ℕ
  rd = bit_and instr 0x07

  lsls : Shifts c (instr_lsls_reg instr c) rd (left_by (c.r rd) s) (left_carry (c.r rd) s)
  unfolding instr_lsls_reg
  lsls = elim (Bool-cases (ltb s 32)) [
    | inl low ↦
        rw (==_ne s 0 ne, low, leb_of_lt s low, ← digit-test (32 - s) (c.r rd))
          (stored-Shifts c rd (u32 (c.r rd * 2 ^ s)) _ v.status (omega arith))
    | inr high ↦ elim (Bool-cases (s == 32)) [
      | inl e ↦
          let es : s ≡ 32 = (==_iff s 32).0 e in
          rw (es, ← digit-test 0 (c.r rd)) (stored-Shifts c rd 0 _ v.status (omega arith))
      | inr e ↦
          rw (==_ne s 0 ne, high, e, leb_of_gt s high e)
            (stored-Shifts c rd 0 false v.status (omega arith))
    ]
  ]

  lsrs : Shifts c (instr_lsrs_reg instr c) rd (right_by (c.r rd) s) (right_carry (c.r rd) s)
  unfolding instr_lsrs_reg
  lsrs = elim (Bool-cases (ltb s 32)) [
    | inl low ↦
        rw (==_ne s 0 ne, low, leb_of_lt s low, ← digit-test (s - 1) (c.r rd))
          (stored-Shifts c rd (c.r rd / 2 ^ s) _ v.status (div-lt (c.r rd) s (v.regs rd)))
    | inr high ↦ elim (Bool-cases (s == 32)) [
      | inl e ↦
          let es : s ≡ 32 = (==_iff s 32).0 e in
          rw (es, ← digit-test 31 (c.r rd)) (stored-Shifts c rd 0 _ v.status (omega arith))
      | inr e ↦
          rw (==_ne s 0 ne, high, e, leb_of_gt s high e)
            (stored-Shifts c rd 0 false v.status (omega arith))
    ]
  ]

  sign_fill-lt : (b : Bool) → (if b then 0xFFFFFFFF else 0) < 2 ^ 32
  sign_fill-lt b = ground arith

  asrs : Shifts c (instr_asrs_reg instr c) rd (sign_by (c.r rd) s) (sign_carry (c.r rd) s)
  unfolding instr_asrs_reg
  asrs = elim (Bool-cases (ltb s 32)) [
    | inl low ↦
        rw (==_ne s 0 ne, low, ← digit-test (s - 1) (c.r rd))
          (stored-Shifts c rd (asr32 (c.r rd) s) _ v.status (asr32-lt (c.r rd) s (v.regs rd)))
    | inr high ↦
        rw (==_ne s 0 ne, high, ← digit_top (c.r rd) (v.regs rd))
          (stored-Shifts c rd _ (test (c.r rd) 0x80000000) v.status (sign_fill-lt _))
  ]

-- Every 16-bit instruction and valid state in which the shift register's low byte s is not 0:
-- LSL, LSR and ASR by a register shift the destination by s places, to 0 or to copies of the sign
-- from 32 places on; the carry is the last bit shifted out, 0 after more than 32 places of LSL and
-- LSR and the sign from 32 places of ASR on. N and Z follow the result; V, the low status bits,
-- the other registers and the other fields of the core are kept.
pub shift_by_register :
    (instr : ℕ) (c : Cpu)
    → IsWord c
    → shift_amount instr c ≢ 0
    → let s = shift_amount instr c in
      let rd = bit_and instr 0x07 in
      Shifts c (instr_lsls_reg instr c) rd (left_by (c.r rd) s) (left_carry (c.r rd) s)
      × Shifts c (instr_lsrs_reg instr c) rd (right_by (c.r rd) s) (right_carry (c.r rd) s)
      × Shifts c (instr_asrs_reg instr c) rd (sign_by (c.r rd) s) (sign_carry (c.r rd) s)
shift_by_register instr c v ne = (lsls instr c v ne, lsrs instr c v ne, asrs instr c v ne)
