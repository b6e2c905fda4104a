-- ===== src/Nvic/Lines.antt =====
-- The two interrupt maps of include/nvic.h.
use picoemu.Base.{
  ℕ, ◌+◌, ◌*◌, ◌/◌, ◌%◌, ◌<◌, ◌≡◌, refl, ap, ◌∙◌, inl, inr, Bool, true, false, not, ◌&&◌, ◌||◌,
  Bool-cases, ltb, ◌==◌, arith,
}
use mathlib.Core.Path.{ap₂}
use picoemu.Base.Bits.{holds_below, holds_below-at}
use picoemu.Nvic.Irq.{nvic_rp2350_irq}

pair_test : ℕ → ℕ → ℕ → Bool
pair_test mode i j =
    ltb (nvic_rp2350_irq mode i) 52
    && ((i == j) || not (nvic_rp2350_irq mode i == nvic_rp2350_irq mode j))

pairs : ℕ → Bool
pairs x = pair_test 1 (x / 32) (x % 32)

every_pair : holds_below pairs 1024 ≡ true
unfolding pairs pair_test holds_below nvic_rp2350_irq
every_pair = refl

pair : (i j : ℕ) → i < 32 → j < 32 → pair_test 1 i j ≡ true
unfolding pairs
pair i j p q =
    ap₂ (pair_test 1) {x = i} {y = (i * 32 + j) / 32} {u = j} {v = (i * 32 + j) % 32} (omega arith)
      (omega arith)
    ∙ holds_below-at pairs 1024 (i * 32 + j) every_pair (omega arith)

-- Any mode but 0 is the RP2350.
same_map : (mode irq : ℕ) → (mode == 0) ≡ false → nvic_rp2350_irq mode irq ≡ nvic_rp2350_irq 1 irq
unfolding nvic_rp2350_irq
same_map mode irq e = rw e refl

own_map : (irq : ℕ) → nvic_rp2350_irq 0 irq ≡ irq
unfolding nvic_rp2350_irq
own_map irq = refl

other_map :
    (i j : ℕ)
    → pair_test 1 i j ≡ true
    → (nvic_rp2350_irq 1 i < 52) × ((i == j) ≡ (nvic_rp2350_irq 1 i == nvic_rp2350_irq 1 j))
unfolding pair_test
other_map i j test = elim (Bool-cases (i == j)) [
  | inl e ↦
      let same : nvic_rp2350_irq 1 i ≡ nvic_rp2350_irq 1 j =
        ap (nvic_rp2350_irq 1) {x = i} {y = j} (ground arith) in
      (ground arith, ground (arith, same))
  | inr e ↦ (ground arith, ground arith)
]

-- Of the 32 interrupts of the RP2040, each is one of the 52 of the RP2350 in the RP2350's map and itself
-- in its own, and in either map different interrupts stay different.
pub nvic_rp2350_irq-distinct :
    (mode i j : ℕ)
    → i < 32
    → j < 32
    → (nvic_rp2350_irq mode i < 52)
      × ((i == j) ≡ (nvic_rp2350_irq mode i == nvic_rp2350_irq mode j))
      × (nvic_rp2350_irq 0 i ≡ i)
nvic_rp2350_irq-distinct mode i j p q = elim (Bool-cases (mode == 0)) [
  | inl e ↦
      let zero_mode : mode ≡ 0 = ground arith in
      rw (zero_mode, own_map i, own_map j) (omega arith, refl, refl)
  | inr e ↦
      let (range, distinct) = other_map i j (pair i j p q) in
      rw (same_map mode i e, same_map mode j e) (range, distinct, own_map i)
]
