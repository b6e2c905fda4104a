-- ===== src/Thumb/Calls.antt =====
-- BL in its two forms of src/instructions.c, and the return from a call by BX.
use picoemu.Base.{
  ℕ, zero, suc, ◌+◌, ◌*◌, ◌/◌, ◌%◌, ◌^◌, ◌≤◌, ◌<◌, ◌≡◌, refl, ◌∙◌, bit_and, bit_or, bit_xor, false,
  u32, not32, arith,
}
use picoemu.Base.Bits.{bit_and_mask, bit_and_test, bit_or_fields}
use picoemu.Thumb.State.{Machine, Env}
use picoemu.Thumb.Flags.{bits}
use picoemu.Thumb.Block.{is_magic}
use picoemu.Thumb.Branch.{c_not, instr_bl, instr_bl_32, instr_bx, instr_blx}

-- `x & ~1` clears the lowest bit.
pub clear_low : (x : ℕ) → x < 2 ^ 32 → bit_and x (not32 1) ≡ x / 2 * 2
clear_low x h = bit_and_test 1 x 0x7FFFFFFF ∙ rw (bit_and_mask 31 (x / 2 ^ 1)) (omega arith)

-- `x | 1` of an even number.
set_low : (q : ℕ) → bit_or (q * 2) 1 ≡ q * 2 + 1
set_low q = bit_or_fields 1 q 1 (omega arith)

-- `!(j ^ s)` and `~(j ^ s) & 1` are the same digit.
not_of_digit : (j s : ℕ) → j < 2 → s < 2 → c_not (bit_xor j s) ≡ bit_and (not32 (bit_xor j s)) 1
not_of_digit zero zero p q = refl
not_of_digit zero (suc zero) p q = refl
not_of_digit (suc zero) zero p q = refl
not_of_digit (suc zero) (suc zero) p q = refl
not_of_digit zero (suc (suc s)) p q = absurd (omega arith)
not_of_digit (suc zero) (suc (suc s)) p q = absurd (omega arith)
not_of_digit (suc (suc j)) s p q = absurd (omega arith)

digit_of : (x k : ℕ) → bits x k 1 < 2
digit_of x k = rw (bit_and_mask 1 (x / 2 ^ k)) (omega arith)

add_wrap : (p off : ℕ) → u32 (p + 4 + off) ≡ u32 (u32 (p + 4) + off)
add_wrap p off = omega arith

-- Where the second halfword that BL fetches is `lower`, `instr_bl` does to the processor what
-- `instr_bl_32` does with that halfword, and leaves the memory as the fetch left it.
pub bl-eq-bl_32 :
    {W : Type 0} (env : Env W) (upper lower : ℕ) (m : Machine W) (w : W)
    → env.mem_read16 (u32 (m.cpu.r 15 + 2)) m.world ≡ (lower, w)
    → instr_bl env upper m ≡ record m { cpu = instr_bl_32 upper lower m.cpu; world = w }
unfolding instr_bl instr_bl_32
bl-eq-bl_32 env upper lower m w fetch =
    let s = bits upper 10 1 in
    rw (
      fetch,
      not_of_digit (bits lower 13 1) s (digit_of lower 13) (digit_of upper 10),
      not_of_digit (bits lower 11 1) s (digit_of lower 11) (digit_of upper 10),
      add_wrap (m.cpu.r 15) _,
    )

-- A word below 0xFFFFFFF0 is no exception return value.
pub is_magic-small : (t : ℕ) → t < 0xFFFFFFF0 → is_magic t ≡ false
is_magic-small t h =
    let e : bit_and t 0xFFFFFFF0 ≡ t / 2 ^ 4 % 2 ^ 28 * 2 ^ 4 =
      bit_and_test 4 t 0x0FFFFFFF ∙ rw (bit_and_mask 28 (t / 2 ^ 4)) in
    rw e (ground arith)

module _ {W : Type 0} (env : Env W) (ret : ℕ) (lr : bits ret 3 0x0F ≡ 14) where
  -- BX with the link register, when that holds an odd word that asks for no exception return.
  bx_lr :
      (m : Machine W) (q : ℕ)
      → m.cpu.r 14 ≡ q * 2 + 1
      → q * 2 + 1 < 0xFFFFFFF0
      → (instr_bx env ret m).cpu.r 15 ≡ q * 2
  unfolding instr_bx
  bx_lr m q e h =
      rw (lr, e, is_magic-small (q * 2 + 1) h) (clear_low (q * 2 + 1) (omega arith) ∙ omega arith)

  -- A call from an even address below 0xFFFFFFEC by BL or by BLX, and then BX with the link
  -- register: execution goes on at the next instruction, 4 bytes after BL and 2 after BLX.
  pub bx-bl_32 :
      (upper lower call q : ℕ) (m : Machine W)
      → m.cpu.r 15 ≡ q * 2
      → q * 2 < 0xFFFFFFEC
      → ((instr_bx env ret (record m { cpu = instr_bl_32 upper lower m.cpu })).cpu.r 15 ≡ q * 2 + 4)
        × ((instr_bx env ret (record m { cpu = instr_blx call m.cpu })).cpu.r 15 ≡ q * 2 + 2)
  unfolding instr_bl_32 instr_blx
  bx-bl_32 upper lower call q m pc small = (
    bx_lr (record m { cpu = instr_bl_32 upper lower m.cpu }) (q + 2)
          (link 4 (q + 2) (omega arith) (omega arith)) (omega arith)
        ∙ omega arith,
    bx_lr (record m { cpu = instr_blx call m.cpu }) (q + 1)
          (link 2 (q + 1) (omega arith) (omega arith)) (omega arith)
        ∙ omega arith,
  )
    where
      link : (k r : ℕ) → k ≤ 4 → q * 2 + k ≡ r * 2 → bit_or (u32 (m.cpu.r 15 + k)) 1 ≡ r * 2 + 1
      link k r hk e = let next : u32 (m.cpu.r 15 + k) ≡ r * 2 = omega arith in rw next (set_low r)
