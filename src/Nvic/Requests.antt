-- ===== src/Nvic/Requests.antt =====
-- What the writes of src/nvic.c keep of an interrupt controller's words and flag.
use native.Mathlib.Nat.{pow-le-pow_right}
use picoemu.Base.{
  ℕ, zero, suc, ◌*◌, ◌/◌, ◌^◌, ◌≤◌, ◌<◌, ◌≡◌, ap, inl, inr, bit_and, bit_or, Bool-cases, ltb, not32,
  arith,
}
use picoemu.Base.Bits.{bit_and-lt, bit_or-lt, bit_and_mask}
use picoemu.Thumb.State.{update}
use picoemu.Nvic.State.{NvicState, nvic_bit_set, nvic_bit_clear}
use picoemu.Nvic.Irq.{
  any_nondefault, nvic_enable_irq, nvic_disable_irq, nvic_clear_pending, nvic_set_priority,
}
use picoemu.Nvic.Writes.{write_irqs, write_ipr}
use picoemu.Nvic.Registers.{word_of, group, is_ipr, unpack_priorities}
use picoemu.Nvic.Choice.{IsIrqState}

pub IsWords : (ℕ → ℕ) → Type 0
IsWords w = (i : ℕ) → w i < 2 ^ 32

update-IsWords : (w : ℕ → ℕ) (i v : ℕ) → IsWords w → v < 2 ^ 32 → IsWords (update w i v)
unfolding IsWords
update-IsWords w i v h p j = ground (arith, h j)

irq_bit-lt : (irq : ℕ) → 2 ^ bit_and irq 31 < 2 ^ 32
irq_bit-lt irq =
    let few : bit_and irq 31 ≤ 31 = omega (arith, bit_and_mask 5 irq) in
    omega (arith, pow-le-pow_right {n = 2} (omega arith) few)

pub nvic_bit_set-IsWords : (w : ℕ → ℕ) (irq : ℕ) → IsWords w → IsWords (nvic_bit_set w irq)
unfolding nvic_bit_set IsWords
nvic_bit_set-IsWords w irq h = update-IsWords w (irq / 2 ^ 5) _ h (
    bit_or-lt 32 (w (irq / 2 ^ 5)) (1 * 2 ^ bit_and irq 31) (h (irq / 2 ^ 5))
      (omega (arith, irq_bit-lt irq)))

nvic_bit_clear-IsWords : (w : ℕ → ℕ) (irq : ℕ) → IsWords w → IsWords (nvic_bit_clear w irq)
unfolding nvic_bit_clear IsWords
nvic_bit_clear-IsWords w irq h = update-IsWords w (irq / 2 ^ 5) _ h (
    bit_and-lt 32 (w (irq / 2 ^ 5)) (not32 (1 * 2 ^ bit_and irq 31)) (h (irq / 2 ^ 5))
      (omega arith))

-- The flag is set by any priority that is not 0.
any_nondefault-zero :
    (priority : ℕ → ℕ) (n j : ℕ) → any_nondefault priority n ≡ 0 → j < n → priority j ≡ 0
unfolding any_nondefault
any_nondefault-zero priority zero j e h = absurd (omega arith)
any_nondefault-zero priority (suc n) j e h = ground (arith, any_nondefault-zero priority n j)

pub nvic_set_priority-IsIrqState :
    (irq value : ℕ) (ns : NvicState) → IsIrqState ns → IsIrqState (nvic_set_priority irq value ns)
unfolding nvic_set_priority
nvic_set_priority-IsIrqState irq value ns good =
    let priority = update ns.priority irq (bit_and value 0xC0) in
    elim (Bool-cases (ltb irq 64)) [
      | inl e ↦ rw e (record {
        enable_words = good.enable_words;
        pending_words = good.pending_words;
        flag = λ j h z. ap (λ (t : ℕ). bit_and t 0xC0) (any_nondefault-zero priority 64 j z h);
      })
      | inr e ↦ rw e good
    ]

with_enable :
    (w : ℕ → ℕ) (ns : NvicState) → IsIrqState ns → IsWords w → IsIrqState (record ns { enable = w })
unfolding IsWords
with_enable w ns good h = record {
  enable_words = h;
  pending_words = good.pending_words;
  flag = good.flag;
}

pub with_pending :
    (w : ℕ → ℕ) (ns : NvicState)
    → IsIrqState ns
    → IsWords w
    → IsIrqState (record ns { pending = w })
unfolding IsWords
with_pending w ns good h = record {
  enable_words = good.enable_words;
  pending_words = h;
  flag = good.flag;
}

pub words : (w : ℕ → ℕ) → ((i : ℕ) → w i < 2 ^ 32) → IsWords w
unfolding IsWords
words w h = h

module _ (irq : ℕ) (ns : NvicState) (good : IsIrqState ns) where
  pub nvic_enable_irq-IsIrqState : IsIrqState (nvic_enable_irq irq ns)
  unfolding nvic_enable_irq
  nvic_enable_irq-IsIrqState = elim (Bool-cases (ltb irq 64)) [
    | inl e ↦ rw e (
        with_enable _ ns good
          (nvic_bit_set-IsWords ns.enable irq (words ns.enable good.enable_words)))
    | inr e ↦ rw e good
  ]

  pub nvic_disable_irq-IsIrqState : IsIrqState (nvic_disable_irq irq ns)
  unfolding nvic_disable_irq
  nvic_disable_irq-IsIrqState = elim (Bool-cases (ltb irq 64)) [
    | inl e ↦ rw e (
        with_enable _ ns good
          (nvic_bit_clear-IsWords ns.enable irq (words ns.enable good.enable_words)))
    | inr e ↦ rw e good
  ]

  pub nvic_clear_pending-IsIrqState : IsIrqState (nvic_clear_pending irq ns)
  unfolding nvic_clear_pending
  nvic_clear_pending-IsIrqState = elim (Bool-cases (ltb irq 64)) [
    | inl e ↦ rw e (
        with_pending _ ns good
          (nvic_bit_clear-IsWords ns.pending irq (words ns.pending good.pending_words)))
    | inr e ↦ rw e good
  ]

write_ipr-IsIrqState :
    (offset val : ℕ) (ns : NvicState) → IsIrqState ns → IsIrqState (write_ipr offset val ns)
unfolding write_ipr
write_ipr-IsIrqState offset val ns good =
    let priority = unpack_priorities 4 0 ns.priority offset val in
    record {
      enable_words = good.enable_words;
      pending_words = good.pending_words;
      flag = λ j h z. any_nondefault-zero (λ i. bit_and (priority i) 0xC0) 64 j z h;
    }

module _ (w : ℕ → ℕ) (i val : ℕ) (h : IsWords w) (small : val < 2 ^ 32) where
  or_word-IsWords : IsWords (update w i (bit_or (w i) val))
  unfolding IsWords
  or_word-IsWords = update-IsWords w i (bit_or (w i) val) h (bit_or-lt 32 (w i) val (h i) small)

  clear_word-IsWords : IsWords (update w i (bit_and (w i) (not32 val)))
  unfolding IsWords
  clear_word-IsWords =
      update-IsWords w i (bit_and (w i) (not32 val)) h
        (bit_and-lt 32 (w i) (not32 val) (h i) (omega arith))

pub write_irqs-IsIrqState :
    (addr val : ℕ) (ns : NvicState)
    → val < 2 ^ 32
    → IsIrqState ns
    → IsIrqState (write_irqs addr val ns)
unfolding write_irqs
write_irqs-IsIrqState addr val ns small good =
    let enable = words ns.enable good.enable_words in
    let pending = words ns.pending good.pending_words in
    elim (Bool-cases (word_of 0xE000E100 addr)) [
      | inl e ↦ rw e (with_enable _ ns good (or_word-IsWords ns.enable _ val enable small))
      | inr e ↦ elim (Bool-cases (word_of 0xE000E180 addr)) [
        | inl f ↦
            rw (e, f) (with_enable _ ns good (clear_word-IsWords ns.enable _ val enable small))
        | inr f ↦ elim (Bool-cases (word_of 0xE000E200 addr)) [
          | inl g ↦
              rw (e, f, g) (with_pending _ ns good (or_word-IsWords ns.pending _ val pending small))
          | inr g ↦ elim (Bool-cases (word_of 0xE000E280 addr)) [
            | inl k ↦
                rw (e, f, g, k)
                  (with_pending _ ns good (clear_word-IsWords ns.pending _ val pending small))
            | inr k ↦ elim (Bool-cases (is_ipr addr)) [
              | inl m ↦
                  rw (e, f, g, k, m) (write_ipr-IsIrqState (group 0xE000E400 addr) val ns good)
              | inr m ↦ rw (e, f, g, k, m) good
            ]
          ]
        ]
      ]
    ]
