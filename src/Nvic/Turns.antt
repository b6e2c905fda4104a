-- ===== src/Nvic/Turns.antt =====
-- What SysTick's event of src/nvic.c does, and one turn of the loop of `systick_tick` on each branch.
use picoemu.Base.{
  ℕ, zero, suc, ◌+◌, ◌-◌, ◌*◌, ◌/◌, ◌%◌, ◌^◌, ◌≤◌, ◌<◌, ◌≡◌, refl, ap, ◌∙◌, inl, inr, bit_and,
  bit_or, true, false, Bool-cases, ltb, ◌==◌, arith,
}
use picoemu.Base.Bits.{bit_or_high, bit_or_step, bit_or-zero, bit_and_mask, bit_and_test}
use picoemu.Nvic.Systick.{Ticked, pend, fire, systick_loop}

-- COUNTFLAG is apart from the two enable bits.
or_one : (y : ℕ) → bit_or y 1 ≡ y / 2 * 2 + 1
or_one y = omega (arith, bit_or_step y 1, bit_or-zero (y / 2))

flagged : (x : ℕ) → bit_or x 65536 ≡ (x / 2 ^ 17 * 2 + 1) * 2 ^ 16 + x % 2 ^ 16
flagged x = omega (arith, bit_or_high 16 x 1, or_one (x / 2 ^ 16))

flagged-same : (x : ℕ) → bit_or (bit_or x 65536) 65536 ≡ bit_or x 65536
flagged-same x = omega (arith, flagged x, flagged (bit_or x 65536))

pub flagged-enabled : (x : ℕ) → bit_and (bit_or x 65536) 1 ≡ bit_and x 1
flagged-enabled x = omega (arith, bit_and_mask 1 (bit_or x 65536), bit_and_mask 1 x, flagged x)

pends : (x : ℕ) → bit_and x 2 ≡ x / 2 % 2 * 2
pends x = omega (arith, bit_and_test 1 x 1, bit_and_mask 1 (x / 2))

flagged-pends : (x : ℕ) → bit_and (bit_or x 65536) 2 ≡ bit_and x 2
flagged-pends x = omega (arith, pends (bit_or x 65536), pends x, flagged x)

module _ {W : Type 0} (wake : W → W) (again : (w : W) → wake (wake w) ≡ wake w) where
  unfoldable pub set_cvr : ℕ → Ticked W → Ticked W
  set_cvr c s = (record s.0 { cvr = c }, s.1)

  pend-off : (s : Ticked W) → (bit_and s.0.csr 2 == 0) ≡ true → pend wake s ≡ s
  unfolding pend
  pend-off s e = rw e refl

  pend-on :
      (s : Ticked W)
      → (bit_and s.0.csr 2 == 0) ≡ false
      → pend wake s ≡ (record s.0 { pending = 1 }, wake s.1)
  unfolding pend
  pend-on s e = rw e refl

  flag : ℕ → Ticked W → Ticked W
  flag r s = (record s.0 { cvr = r; csr = bit_or s.0.csr 65536 }, s.1)

  fire-off : (r : ℕ) (s : Ticked W) → (bit_and s.0.csr 2 == 0) ≡ true → fire wake r s ≡ flag r s
  unfolding fire flag
  fire-off r s e = pend-off (flag r s) (rw (flagged-pends s.0.csr) e)

  fire-on :
      (r : ℕ) (s : Ticked W)
      → (bit_and s.0.csr 2 == 0) ≡ false
      → fire wake r s ≡ (record (flag r s).0 { pending = 1 }, wake s.1)
  unfolding fire flag
  fire-on r s e = pend-on (flag r s) (rw (flagged-pends s.0.csr) e)

  pub fire-cvr : (r : ℕ) (s : Ticked W) → (fire wake r s).0.cvr ≡ r
  unfolding flag
  fire-cvr r s = elim (Bool-cases (bit_and s.0.csr 2 == 0)) [
    | inl e ↦ rw (fire-off r s e) refl
    | inr e ↦ rw (fire-on r s e) refl
  ]

  pub fire-rvr : (r : ℕ) (s : Ticked W) → (fire wake r s).0.rvr ≡ s.0.rvr
  unfolding flag
  fire-rvr r s = elim (Bool-cases (bit_and s.0.csr 2 == 0)) [
    | inl e ↦ rw (fire-off r s e) refl
    | inr e ↦ rw (fire-on r s e) refl
  ]

  pub fire-csr : (r : ℕ) (s : Ticked W) → (fire wake r s).0.csr ≡ bit_or s.0.csr 65536
  unfolding flag
  fire-csr r s = elim (Bool-cases (bit_and s.0.csr 2 == 0)) [
    | inl e ↦ rw (fire-off r s e) refl
    | inr e ↦ rw (fire-on r s e) refl
  ]

  pub set_cvr-fire : (c r : ℕ) (s : Ticked W) → set_cvr c (fire wake r s) ≡ fire wake c s
  unfolding set_cvr flag
  set_cvr-fire c r s = elim (Bool-cases (bit_and s.0.csr 2 == 0)) [
    | inl e ↦ rw (fire-off r s e, fire-off c s e) refl
    | inr e ↦ rw (fire-on r s e, fire-on c s e) refl
  ]

  pend-fire : (r : ℕ) (s : Ticked W) → pend wake (fire wake r s) ≡ fire wake r s
  unfolding flag
  pend-fire r s = elim (Bool-cases (bit_and s.0.csr 2 == 0)) [
    | inl e ↦ rw (fire-off r s e) (pend-off (flag r s) (rw (flagged-pends s.0.csr) e))
    | inr e ↦
        let on : Ticked W = (record (flag r s).0 { pending = 1 }, wake s.1) in
        rw (fire-on r s e) (pend-on on (rw (flagged-pends s.0.csr) e) ∙ rw (again s.1) refl)
  ]

  pub fire-fire : (r q : ℕ) (s : Ticked W) → fire wake r (fire wake q s) ≡ fire wake r s
  unfolding flag
  fire-fire r q s = elim (Bool-cases (bit_and s.0.csr 2 == 0)) [
    | inl e ↦
        rw (fire-off q s e, fire-off r s e)
          (fire-off r (flag q s) (rw (flagged-pends s.0.csr) e) ∙ rw (flagged-same s.0.csr) refl)
    | inr e ↦
        let on : Ticked W = (record (flag q s).0 { pending = 1 }, wake s.1) in
        rw (fire-on q s e, fire-on r s e)
          (fire-on r on (rw (flagged-pends s.0.csr) e) ∙ rw (flagged-same s.0.csr, again s.1) refl)
  ]

  pub fire-set_cvr : (c r : ℕ) (s : Ticked W) → fire wake r (set_cvr c s) ≡ fire wake r s
  unfolding fire set_cvr
  fire-set_cvr c r s = refl

  -- One turn of the loop on each branch.
  pub loop-done : (fuel r : ℕ) (s : Ticked W) → systick_loop wake fuel r 0 s ≡ s
  unfolding systick_loop
  loop-done zero r s = refl
  loop-done (suc fuel) r s = refl

  module _ (fuel r n c : ℕ) (s : Ticked W) (here : s.0.cvr ≡ c) (more : 0 < n) where
    pub loop-zero :
        0 < r
        → c ≡ 0
        → systick_loop wake (suc fuel) r n s ≡ systick_loop wake fuel r (n - 1) (fire wake r s)
    unfolding systick_loop
    loop-zero big z =
        let f : (n == 0) ≡ false = ground arith in
        let g : (s.0.cvr == 0) ≡ true = ground arith in
        let p : (r == 0) ≡ false = ground arith in rw (f, g, p) refl

    pub loop-short : n < c → systick_loop wake (suc fuel) r n s ≡ set_cvr (c - n) s
    unfolding systick_loop set_cvr
    loop-short h =
        let f : (n == 0) ≡ false = ground arith in
        let g : (s.0.cvr == 0) ≡ false = ground arith in
        let k : ltb n s.0.cvr ≡ true = ground arith in
        rw (f, g, k) (ap (λ (t : ℕ). set_cvr (t - n) s) here)

    module _ (big : 0 < r) (up : 0 < c) (reach : c ≤ n) where
      pub loop-next :
          n - c ≤ r
          → systick_loop wake (suc fuel) r n s ≡ systick_loop wake fuel r (n - c) (fire wake r s)
      unfolding systick_loop
      loop-next h =
          let f : (n == 0) ≡ false = ground arith in
          let g : (s.0.cvr == 0) ≡ false = ground arith in
          let k : ltb n s.0.cvr ≡ false = ground arith in
          let p : (r == 0) ≡ false = ground arith in
          let q : ltb r (n - s.0.cvr) ≡ false = ground arith in
          rw (f, g, k, p, q) (ap (λ (t : ℕ). systick_loop wake fuel r (n - t) (fire wake r s)) here)

      pub loop-skip :
          r < n - c
          → systick_loop wake (suc fuel) r n s
            ≡ systick_loop wake fuel r (n - c - (n - c - 1) / r * r) (fire wake r s)
      unfolding systick_loop
      loop-skip h =
          let f : (n == 0) ≡ false = ground arith in
          let g : (s.0.cvr == 0) ≡ false = ground arith in
          let k : ltb n s.0.cvr ≡ false = ground arith in
          let p : (r == 0) ≡ false = ground arith in
          let q : ltb r (n - s.0.cvr) ≡ true = ground arith in
          let left : ℕ → ℕ = λ t. n - t - (n - t - 1) / r * r in
          rw (f, g, k, p, q, pend-fire r s)
            (ap (λ (t : ℕ). systick_loop wake fuel r (left t) (fire wake r s)) here)
