-- ===== src/Nvic/Regions.antt =====
-- Which region of the memory protection unit of src/nvic.c decides.
use picoemu.Base.{
  ℕ, zero, suc, ◌≤◌, ◌<◌, ◌≡◌, refl, ap, ◌∙◌, ◌⊎◌, inl, inr, Option, none, some, true, false,
  Bool-cases, ◌==◌, arith,
}
use picoemu.Nvic.State.{MpuState}
use picoemu.Nvic.Protection.{region_hit, mpu_hit}

-- A region that holds the address, above all others that do; or no region holds it.
abbrev pub IsLastHit : MpuState → ℕ → ℕ → Option ℕ → Type 0
IsLastHit mpu addr j none = region_hit mpu.rbar mpu.rlar addr j ≡ false
IsLastHit mpu addr j (some r) =
    (region_hit mpu.rbar mpu.rlar addr r ≡ true)
    × ((j ≤ r) ⊎ (region_hit mpu.rbar mpu.rlar addr j ≡ false))

IsHit : MpuState → ℕ → Option ℕ → Type 0
IsHit mpu addr none = true ≡ true
IsHit mpu addr (some r) = region_hit mpu.rbar mpu.rlar addr r ≡ true

mpu_hit-IsHit : (n : ℕ) (mpu : MpuState) (addr : ℕ) → IsHit mpu addr (mpu_hit n mpu addr)
unfolding mpu_hit IsHit
mpu_hit-IsHit zero mpu addr = refl
mpu_hit-IsHit (suc n) mpu addr = elim (Bool-cases (region_hit mpu.rbar mpu.rlar addr n)) [
  | inl e ↦ rw e e
  | inr e ↦ rw e (mpu_hit-IsHit n mpu addr)
]

missed :
    (mpu : MpuState) (addr j : ℕ) (hit : Option ℕ)
    → IsHit mpu addr hit
    → region_hit mpu.rbar mpu.rlar addr j ≡ false
    → IsLastHit mpu addr j hit
unfolding IsHit
missed mpu addr j none h e = e
missed mpu addr j (some r) h e = (h, inr e)

-- Of the first `n` regions, for each: when a region decides, it is enabled and holds the address, and
-- the given one has no higher number or does not hold the address; when none decides, the given one
-- does not hold the address.
pub mpu_hit-IsLastHit :
    (n : ℕ) (mpu : MpuState) (addr j : ℕ) → j < n → IsLastHit mpu addr j (mpu_hit n mpu addr)
unfolding mpu_hit
mpu_hit-IsLastHit zero mpu addr j h = absurd (omega arith)
mpu_hit-IsLastHit (suc n) mpu addr j h = elim (Bool-cases (region_hit mpu.rbar mpu.rlar addr n)) [
  | inl e ↦ rw e (e, inl (omega arith))
  | inr e ↦ rw e (elim (Bool-cases (j == n)) [
    | inl f ↦
        let same : j ≡ n = ground arith in
        let miss : region_hit mpu.rbar mpu.rlar addr j ≡ false =
          ap (region_hit mpu.rbar mpu.rlar addr) same ∙ e in
        missed mpu addr j (mpu_hit n mpu addr) (mpu_hit-IsHit n mpu addr) miss
    | inr f ↦ mpu_hit-IsLastHit n mpu addr j (ground arith)
  ])
]
