-- ===== src/Sio/Division.antt =====
-- The arithmetic of the hardware divider of src/membus.c.
use picoemu.Base.{
  ℕ, ◌+◌, ◌*◌, ◌/◌, ◌%◌, ◌<◌, ◌≡◌, refl, ◌≢◌, ◌⊎◌, ◌==◌, Bool-cases, inl, inr, if◌then◌else◌, arith,
}
use picoemu.Sio.Divider.{
  Divider, sio_divider_finish, sio_divider_run_unsigned, sio_write_divider, sio_read_divider,
}

-- The divider after a dividend and a divisor were written.
abbrev settled : ℕ → ℕ → Divider → Divider
settled a b div = record div {
  udividend = a;
  udivisor = b;
  quotient = if b == 0 then 0xFFFFFFFF else a / b;
  remainder = if b == 0 then a else a % b;
  csr = 3;
}

run_settled :
    (div : Divider) → sio_divider_run_unsigned div ≡ settled div.udividend div.udivisor div
unfolding sio_divider_run_unsigned sio_divider_finish
run_settled div = ground arith

dividend_first :
    (a b : ℕ) (div : Divider)
    → sio_write_divider 0x64 b (sio_write_divider 0x60 a div) ≡ settled a b div
unfolding sio_write_divider
dividend_first a b div =
    let begun = run_settled (record div { udividend = a }) in rw (begun, run_settled _)

divisor_first :
    (a b : ℕ) (div : Divider)
    → sio_write_divider 0x60 a (sio_write_divider 0x64 b div) ≡ settled a b div
unfolding sio_write_divider
divisor_first a b div =
    let begun = run_settled (record div { udivisor = b }) in rw (begun, run_settled _)

-- A dividend and a divisor, written in either order, leave the same registers: the quotient and the
-- remainder with quotient * divisor + remainder = dividend and the remainder below the divisor, or,
-- only for the divisor 0, the quotient with all bits set and the dividend as remainder. The status
-- is READY and DIRTY, and the read of the quotient clears DIRTY.
pub unsigned_division :
    (a b : ℕ) (div : Divider)
    → let first = sio_write_divider 0x64 b (sio_write_divider 0x60 a div) in
      let second = sio_write_divider 0x60 a (sio_write_divider 0x64 b div) in
      let q = (sio_read_divider 0x70 first).0 in
      let r = (sio_read_divider 0x74 (sio_read_divider 0x70 first).1).0 in
      (first ≡ second)
      × (((q * b + r ≡ a) × (r < b)) ⊎ ((b ≡ 0) × (q ≡ 0xFFFFFFFF) × (r ≡ a)))
      × (first.csr ≡ 3)
      × ((sio_read_divider 0x70 first).1.csr ≡ 1)
unfolding sio_read_divider
unsigned_division a b div =
    rw (dividend_first a b div, divisor_first a b div) (refl, divided, refl, refl)
  where
    quotient : ℕ
    quotient = if b == 0 then 0xFFFFFFFF else a / b

    remainder : ℕ
    remainder = if b == 0 then a else a % b

    divided :
        ((quotient * b + remainder ≡ a) × (remainder < b))
        ⊎ ((b ≡ 0) × (quotient ≡ 0xFFFFFFFF) × (remainder ≡ a))
    divided = elim (Bool-cases (b == 0)) [
      | inl e ↦ rw e (inr (ground arith, refl, refl))
      | inr e ↦ let positive : b ≢ 0 = ground arith in rw e (inl (omega arith, omega arith))
    ]
