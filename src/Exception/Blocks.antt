-- ===== src/Exception/Blocks.antt =====
-- The If-Then blocks of src/cpu.c against the architecture's ITSTATE, one byte with the condition of
-- the next instruction in its high half.
use mathlib.Core.Path.{ap₂}
use picoemu.Base.{
  ℕ, zero, suc, ◌+◌, ◌*◌, ◌/◌, ◌%◌, ◌^◌, ◌≤◌, ◌<◌, ◌≡◌, refl, ◌∙◌, ==_iff, bit_and, Bool, true,
  false, not, ◌&&◌, ◌||◌, leb, ltb, ◌==◌, if◌then◌else◌, u8, ◌>>◌, arith,
}
use picoemu.Base.Bits.{bit_and_mask, holds_below, holds_below-at}
use picoemu.Thumb.State.{Cpu}
use picoemu.Thumb.System.{it_mask_len, it_set_state}
use picoemu.Exception.Predication.{slot_cond, t32_check_cond, it_check_skip}

-- ITAdvance(): the low three bits at 0 end the block; else the low five bits move up by one.
abbrev pub it_advance : ℕ → ℕ
it_advance s = if s % 8 == 0 then 0 else s / 32 * 32 + s % 16 * 2

abbrev pub it_state : ℕ → ℕ → ℕ
it_state zero s = s
it_state (suc n) s = it_advance (it_state n s)

-- The emulator's state in slot `n` of the block with the byte `firstcond : mask`.
abbrev pub block : ℕ → ℕ → Cpu → Cpu
block s n c = record c {
  it_base = s / 16;
  it_mask = s % 16;
  it_pos = n;
  it_len = it_mask_len (s % 16);
}

decode :
    {p q l e : Bool}
    → p ≡ true
    → (not p || (q && (if l then e else not e))) ≡ true
    → (q ≡ true) × (l ≡ e)
decode {p} {q} {l} {e} h t = ground arith

module _ (c : Cpu) where
  -- What is checked of slot `n` of the byte `s`, as far as the block goes.
  slot_test : ℕ → ℕ → Bool
  slot_test s n =
      let last = leb (it_mask_len (s % 16)) (n + 1) in
      let ended = it_state (suc n) s == 0 in
      not (ltb n (it_mask_len (s % 16)))
      || ((slot_cond (block s n c) == it_state n s / 16) && (if last then ended else not ended))

  slots : ℕ → Bool
  slots x = slot_test (x / 4) (x % 4)

  every_slot : holds_below slots 1024 ≡ true
  unfolding slots slot_test holds_below it_mask_len slot_cond
  every_slot = refl

  it_mask_len-le : (m : ℕ) → it_mask_len m ≤ 4
  unfolding it_mask_len
  it_mask_len-le m = omega arith

  slot : (s n : ℕ) → s < 256 → n < it_mask_len (s % 16) → slot_test s n ≡ true
  unfolding slots
  slot s n byte inside =
      let few = it_mask_len-le (s % 16) in
      ap₂ slot_test {x = s} {y = (s * 4 + n) / 4} {u = n} {v = (s * 4 + n) % 4} (omega (arith, few))
        (omega (arith, few))
      ∙ holds_below-at slots 1024 (s * 4 + n) every_slot (omega (arith, few))

  slot-at :
      (s n : ℕ)
      → s < 256
      → n < it_mask_len (s % 16)
      → (slot_cond (block s n c) ≡ it_state n s / 16)
        × (leb (it_mask_len (s % 16)) (n + 1) ≡ (it_state (suc n) s == 0))
  unfolding slot_test
  slot-at s n byte inside =
      let within : ltb n (it_mask_len (s % 16)) ≡ true = ground arith in
      let (same, agrees) = decode within (slot s n byte inside) in
      ((==_iff (slot_cond (block s n c)) (it_state n s / 16)).0 same, agrees)

  it_check_skip-it_state :
      (iw s n : ℕ)
      → ((iw >> 8 == 0xBF) && not (bit_and iw 0x000F == 0)) ≡ false
      → s < 256
      → n < it_mask_len (s % 16)
      → it_check_skip iw (block s n c) ≡ (
        not (t32_check_cond (it_state n s / 16) c.xpsr),
        if it_state (suc n) s == 0
            then record (block s n c) { it_pos = 0; it_len = 0 }
            else block s (n + 1) c,
      )
  unfolding it_check_skip
  it_check_skip-it_state iw s n other byte inside =
      let (cond, last) = slot-at s n byte inside in
      let active : (it_mask_len (s % 16) == 0) ≡ false = ground arith in
      rw (active, other, cond, last) refl

it_set_state-block : (instr : ℕ) (c : Cpu) → it_set_state instr c ≡ block (bit_and instr 0xFF) 0 c
unfolding it_set_state
it_set_state-block instr c =
    let byte = bit_and_mask 8 instr in
    let base : bit_and (instr >> 4) 0xF ≡ bit_and instr 0xFF / 16 =
      omega (arith, byte, bit_and_mask 4 (instr / 2 ^ 4)) in
    let mask : bit_and instr 0xF ≡ bit_and instr 0xFF % 16 =
      omega (arith, byte, bit_and_mask 4 instr) in
    let few = it_mask_len-le c (bit_and instr 0xFF % 16) in
    let len : u8 (it_mask_len (bit_and instr 0xFF % 16)) ≡ it_mask_len (bit_and instr 0xFF % 16) =
      omega (arith, few) in
    rw (base, mask, len) refl

-- IT starts the block of its low byte in slot 0. In slot `n` of a block, an instruction other than IT is
-- skipped just when the condition in ITSTATE fails; then the block ends where ITSTATE becomes 0 and goes
-- on to the next slot elsewhere.
pub it_blocks :
    (instr iw n : ℕ) (c : Cpu)
    → ((iw >> 8 == 0xBF) && not (bit_and iw 0x000F == 0)) ≡ false
    → n < it_mask_len (bit_and instr 0xFF % 16)
    → let s = bit_and instr 0xFF in
      (it_set_state instr c ≡ block s 0 c)
      × (it_check_skip iw (block s n c) ≡ (
        not (t32_check_cond (it_state n s / 16) c.xpsr),
        if it_state (suc n) s == 0
            then record (block s n c) { it_pos = 0; it_len = 0 }
            else block s (n + 1) c,
      ))
it_blocks instr iw n c other inside =
    let byte : bit_and instr 0xFF < 256 = omega (arith, bit_and_mask 8 instr) in
    (
      it_set_state-block instr c,
      it_check_skip-it_state c iw (bit_and instr 0xFF) n other byte inside,
    )
