-- ===== src/Thumb/Ram.antt =====
-- Memory that behaves as memory, as the block transfers of src/instructions.c need it, and the
-- registers that a list names.
use native.Mathlib.Numerals.{add-one}
use picoemu.Base.{
  ℕ, zero, suc, ◌+◌, ◌^◌, ◌≤◌, ◌<◌, ◌≡◌, ◌⊎◌, inl, inr, ltb, Bool-cases, if◌then◌else◌, arith,
}
use picoemu.Thumb.State.{Env}
use picoemu.Thumb.Block.{in_list}

-- The window of addresses from `lo` up to `hi` holds words: a read there changes nothing, and
-- returns what was last written there.
pub record IsRam {W : Type 0} (env : Env W) (lo hi : ℕ) : Type 0 where
  pub bounded : hi < 2 ^ 32
  pub read_pure : (a : ℕ) (w : W) → lo ≤ a → a + 4 ≤ hi → (env.mem_read32 a w).1 ≡ w
  pub read_self :
      (a v : ℕ) (w : W)
      → lo ≤ a
      → a + 4 ≤ hi
      → v < 2 ^ 32
      → (env.mem_read32 a (env.mem_write32 a v w)).0 ≡ v
  pub read_other :
      (a b v : ℕ) (w : W)
      → lo ≤ a
      → a + 4 ≤ hi
      → lo ≤ b
      → b + 4 ≤ hi
      → (a + 4 ≤ b) ⊎ (b + 4 ≤ a)
      → (env.mem_read32 b (env.mem_write32 a v w)).0 ≡ (env.mem_read32 b w).0

-- How many registers below `k` a list names.
abbrev pub listed : ℕ → ℕ → ℕ
listed rlist zero = 0
listed rlist (suc k) = listed rlist k + (if in_list rlist k then 1 else 0)

pub listed-le : (rlist k : ℕ) → listed rlist k ≤ k
listed-le rlist zero = omega arith
listed-le rlist (suc k) = ground (arith, listed-le rlist k)

pub listed_mono : (rlist i n : ℕ) → i ≤ n → listed rlist i ≤ listed rlist n
listed_mono rlist i zero h = let e : i ≡ 0 = omega arith in rw e (omega arith)
listed_mono rlist i (suc n) h = elim (Bool-cases (ltb n i)) [
  | inl e ↦ let e' : i ≡ suc n = ground arith in rw e' (omega arith)
  | inr e ↦ ground (arith, listed_mono rlist i n)
]

pub listed-next :
    (rlist i : ℕ) → listed rlist (i + 1) ≡ listed rlist i + (if in_list rlist i then 1 else 0)
listed-next rlist i = rw add-one
