-- ===== src/Sio/Divider.antt =====
-- The hardware divider of src/membus.c, one for each core.
use picoemu.Base.{
  ℕ, ◌-◌, ◌/◌, ◌%◌, ◌^◌, bit_and, Bool, ◌&&◌, leb, ltb, ◌==◌, if◌then◌else◌, u32, not32,
}

-- `sio_divider_state_t`
pub record Divider : Type 0 where
  pub udividend : ℕ
  pub udivisor : ℕ
  pub sdividend : ℕ
  pub sdivisor : ℕ
  pub quotient : ℕ
  pub remainder : ℕ
  pub csr : ℕ

-- READY and DIRTY.
unfoldable pub sio_divider_finish : ℕ → ℕ → Divider → Divider
sio_divider_finish quotient remainder div = record div {
  quotient = quotient;
  remainder = remainder;
  csr = 3;
}

unfoldable pub sio_divider_run_unsigned : Divider → Divider
sio_divider_run_unsigned div =
    if div.udivisor == 0
    then sio_divider_finish 0xFFFFFFFF div.udividend div
    else sio_divider_finish (div.udividend / div.udivisor) (div.udividend % div.udivisor) div

-- An `int32_t` as its sign and its magnitude; `signed_word` casts a sign and a magnitude back.
abbrev pub is_negative : ℕ → Bool
is_negative w = leb (2 ^ 31) w

abbrev pub magnitude : ℕ → ℕ
magnitude w = if is_negative w then 2 ^ 32 - w else w

abbrev pub signed_word : Bool → ℕ → ℕ
signed_word negative n = if negative then u32 (2 ^ 32 - n) else n

-- `/` and `%` of C on `int32_t`, which round to 0: the remainder has the dividend's sign.
unfoldable pub signed_quotient : ℕ → ℕ → ℕ
signed_quotient a b =
    signed_word (if is_negative a then ltb b (2 ^ 31) else is_negative b)
      (magnitude a / magnitude b)

unfoldable pub signed_remainder : ℕ → ℕ → ℕ
signed_remainder a b = signed_word (is_negative a) (magnitude a % magnitude b)

unfoldable pub sio_divider_run_signed : Divider → Divider
sio_divider_run_signed div =
    if div.sdivisor == 0
    then sio_divider_finish 0xFFFFFFFF div.sdividend div
    else if (div.sdividend == 0x80000000) && (div.sdivisor == 0xFFFFFFFF)
    then sio_divider_finish 0x80000000 0 div
    else sio_divider_finish (signed_quotient div.sdividend div.sdivisor)
        (signed_remainder div.sdividend div.sdivisor) div

unfoldable pub sio_write_divider : ℕ → ℕ → Divider → Divider
sio_write_divider offset val div =
    if offset == 0x60
    then sio_divider_run_unsigned (record div { udividend = val })
    else if offset == 0x64
    then sio_divider_run_unsigned (record div { udivisor = val })
    else if offset == 0x68
    then sio_divider_run_signed (record div { sdividend = val })
    else if offset == 0x6C
    then sio_divider_run_signed (record div { sdivisor = val })
    else if offset == 0x70
    then record div { quotient = val; csr = 3 }
    else if offset == 0x74
    then record div { remainder = val; csr = 3 }
    else div

-- A read of the quotient clears DIRTY.
unfoldable pub sio_read_divider : ℕ → Divider → ℕ × Divider
sio_read_divider offset div =
    if offset == 0x60
    then (div.udividend, div)
    else if offset == 0x64
    then (div.udivisor, div)
    else if offset == 0x68
    then (div.sdividend, div)
    else if offset == 0x6C
    then (div.sdivisor, div)
    else if offset == 0x70
    then (div.quotient, record div { csr = bit_and div.csr (not32 2) })
    else if offset == 0x74
    then (div.remainder, div)
    else if offset == 0x78
    then (div.csr, div)
    else (0, div)
