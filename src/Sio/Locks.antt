-- ===== src/Sio/Locks.antt =====
-- Properties of the spinlocks of src/cpu.c and of their state word in src/membus.c.
use picoemu.Base.{
  ℕ, zero, suc, ◌+◌, ◌*◌, ◌/◌, ◌%◌, ◌^◌, ◌<◌, ◌≡◌, refl, sym, ap, ◌∙◌, ◌≢◌, ◌⊎◌, true, false,
  bit_or, leb, ◌==◌, Bool-cases, inl, inr, if◌then◌else◌, ◌<<◌, arith,
}
use native.Mathlib.Nat.{pow-suc, pow-succ', div-div-eq-div-mul, div-eq_of_lt, mod-eq_of_lt}
use picoemu.Base.Bits.{bit_or_high, quotient_of, zero-bit_or}
use picoemu.Thumb.State.{update}
use picoemu.Sio.Spinlock.{
  is_locked, spinlock_acquire, spinlock_release, lock_bits, sio_spinlock_state_bitmap,
}

taken_step :
    (n : ℕ) (locks : ℕ → ℕ) → is_locked locks n ≡ true → spinlock_acquire n locks ≡ (0, locks)
unfolding spinlock_acquire
taken_step n locks e = elim (Bool-cases (leb 32 n)) [
  | inl out ↦ rw out
  | inr inside ↦ rw (inside, e)
]

free_step :
    (n : ℕ) (locks : ℕ → ℕ)
    → n < 32
    → is_locked locks n ≡ false
    → spinlock_acquire n locks ≡ (2 ^ n, update locks n 0x80000001)
unfolding spinlock_acquire
free_step n locks h e =
    let inside : leb 32 n ≡ false = ground arith in
    let bit : 1 * 2 ^ n ≡ 2 ^ n = omega arith in rw (inside, e, bit)

update_self : (locks : ℕ → ℕ) (n v : ℕ) → update locks n v n ≡ v
update_self locks n v = ground arith

update_other : (locks : ℕ → ℕ) (n v j : ℕ) → n ≢ j → update locks n v j ≡ locks j
update_other locks n v j ne = ground arith

released : (n : ℕ) (locks : ℕ → ℕ) → n < 32 → spinlock_release n locks ≡ update locks n 0
unfolding spinlock_release
released n locks h = let inside : leb 32 n ≡ false = ground arith in rw inside

-- The 32 locks: acquiring one that is free returns its bit and takes it, acquiring one that is taken
-- returns 0; either way it is taken afterwards, a second attempt returns 0 and changes no lock, and
-- once it is released it can be acquired again. No other lock is touched by these.
pub acquire-release :
    (n j : ℕ) (locks : ℕ → ℕ)
    → n < 32
    → let (got, after) = spinlock_acquire n locks in
      (got ≡ (if is_locked locks n then 0 else 2 ^ n))
      × (is_locked after n ≡ true)
      × (spinlock_acquire n after ≡ (0, after))
      × ((spinlock_acquire n (spinlock_release n after)).0 ≡ 2 ^ n)
      × (((after j ≡ locks j) × (spinlock_release n after j ≡ locks j)) ⊎ (n ≡ j))
acquire-release n j locks h = elim (Bool-cases (is_locked locks n)) [
  | inl e ↦
      rw (taken_step n locks e, e) (refl, refl, taken_step n locks e, again locks, apart locks refl)
  | inr e ↦
      let after = update locks n 0x80000001 in
      let taken : is_locked after n ≡ true = rw (update_self locks n 0x80000001) in
      rw (free_step n locks h e, e)
        (
          refl,
          taken,
          taken_step n after taken,
          again after,
          elim (Bool-cases (n == j)) [
            | inl same ↦ inr (ground arith)
            | inr other ↦ apart after (update_other locks n _ j (ground arith))
          ],
        )
]
  where
    again : (locks : ℕ → ℕ) → (spinlock_acquire n (spinlock_release n locks)).0 ≡ 2 ^ n
    again locks =
        let free : is_locked (update locks n 0) n ≡ false = rw (update_self locks n 0) in
        rw (released n locks h, free_step n (update locks n 0) h free)

    apart :
        (after : ℕ → ℕ)
        → after j ≡ locks j
        → ((after j ≡ locks j) × (spinlock_release n after j ≡ locks j)) ⊎ (n ≡ j)
    apart after kept = elim (Bool-cases (n == j)) [
      | inl same ↦ inr (ground arith)
      | inr other ↦
          inl (kept, rw (released n after h) (update_other after n 0 j (ground arith) ∙ kept))
    ]

-- A bit above the `n`-th leaves that alone.
digit_below : (n k x : ℕ) → n < k → (x + 2 ^ k) / 2 ^ n % 2 ≡ x / 2 ^ n % 2
digit_below n zero x h = absurd (omega arith)
digit_below zero (suc k) x h = let e = pow-suc 2 k in omega arith
digit_below (suc n) (suc k) x h =
    let e = pow-suc 2 k in
    let half : (x + 2 ^ suc k) / 2 ≡ x / 2 + 2 ^ k = omega arith in
    let halve : (a : ℕ) → a / 2 ^ suc n ≡ a / 2 / 2 ^ n =
      λ a. ap (λ (p : ℕ). a / p) (pow-succ' 2 n) ∙ sym (div-div-eq-div-mul a 2 (2 ^ n)) in
    rw (halve (x + 2 ^ suc k), halve x, half) (digit_below n k (x / 2) (omega arith))

lock_bits_digits :
    (k : ℕ) (locks : ℕ → ℕ)
    → (lock_bits k locks < 2 ^ k)
      × ((n : ℕ) → n < k → lock_bits k locks / 2 ^ n % 2 ≡ (if is_locked locks n then 1 else 0))
unfolding lock_bits
lock_bits_digits zero locks = (omega arith, λ n h. absurd (omega arith))
lock_bits_digits (suc k) locks =
    let (small, known) = lock_bits_digits k locks in
    let double = pow-suc 2 k in
    let b = lock_bits k locks in
    let set_bit : bit_or b (1 << k) ≡ b + 2 ^ k =
      bit_or_high k b 1
      ∙ rw (div-eq_of_lt small, zero-bit_or 1, mod-eq_of_lt small) (omega arith) in
    elim (Bool-cases (is_locked locks k)) [
      | inl e ↦
          rw (e, set_bit)
            (
              omega arith,
              λ n h. elim (Bool-cases (n == k)) [
                | inl same ↦
                    let here : n ≡ k = ground arith in
                    let next : (b + 2 ^ k) / 2 ^ k ≡ 1 =
                      ap (λ (x : ℕ). x / 2 ^ k) {x = b + 2 ^ k} {y = 1 * 2 ^ k + b} (omega arith)
                      ∙ quotient_of k 1 b small in
                    rw (here, e, next) refl
                | inr other ↦
                    let below : n < k = ground arith in digit_below n k b below ∙ known n below
              ],
            )
      | inr e ↦ rw e (
        omega arith,
        λ n h. elim (Bool-cases (n == k)) [
          | inl same ↦ let here : n ≡ k = ground arith in rw (here, e, div-eq_of_lt small) refl
          | inr other ↦ known n (ground arith)
        ],
      )
    ]

-- Each bit of the state word that SPINLOCK_ST reads is set when the lock of that number is taken.
pub bitmap-is_locked :
    (n : ℕ) (locks : ℕ → ℕ)
    → n < 32
    → sio_spinlock_state_bitmap locks / 2 ^ n % 2 ≡ (if is_locked locks n then 1 else 0)
bitmap-is_locked n locks h = (lock_bits_digits 32 locks).1 n h
