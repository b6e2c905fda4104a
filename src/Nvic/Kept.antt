-- ===== src/Nvic/Kept.antt =====
-- The words and the flag of both cores' interrupt controllers, under all that src/nvic.c does.
use picoemu.Base.{
  ℕ, ◌^◌, ◌<◌, ◌≡◌, refl, sym, ◌∙◌, inl, inr, bit_and, Bool, true, false, not, ◌&&◌, Bool-cases,
  ltb, leb, ◌==◌, if◌then◌else◌, ◌>>◌, arith,
}
use picoemu.Nvic.State.{
  NvicState, SystickState, Ppb, nvic_cur, on_nvic, on_systick, nvic_bit_set, nvic_reset,
}
use picoemu.Nvic.Irq.{
  nvic_enable_irq, nvic_disable_irq, nvic_clear_pending, nvic_set_priority, nvic_set_pending,
  nvic_signal_irq,
}
use picoemu.Nvic.Writes.{
  has_bit, write_irqs, write_faults, write_systick, wake_if, write_icsr, write_aircr, write_stir,
  nvic_write_register,
}
use picoemu.Nvic.Choice.{IsIrqState}
use picoemu.Nvic.Requests.{
  words, with_pending, nvic_bit_set-IsWords, nvic_enable_irq-IsIrqState,
  nvic_disable_irq-IsIrqState, nvic_clear_pending-IsIrqState, nvic_set_priority-IsIrqState,
  write_irqs-IsIrqState,
}

-- Every core's controller is well-formed.
pub record IsPpb {W : Type 0} (p : Ppb W) : Type 0 where
  pub core : (c : ℕ) → IsIrqState (p.nvic_states c)

-- What leaves the words, the priorities and the flag alone.
as_before :
    (ns ns' : NvicState)
    → IsIrqState ns
    → ns'.enable ≡ ns.enable
    → ns'.pending ≡ ns.pending
    → ns'.priority ≡ ns.priority
    → ns'.priorities_nondefault ≡ ns.priorities_nondefault
    → IsIrqState ns'
as_before ns ns' good e p r f = record {
  enable_words = λ i. rw e (good.enable_words i);
  pending_words = λ i. rw p (good.pending_words i);
  flag = λ j h z. rw r (good.flag j h (sym f ∙ z));
}

write_faults-IsIrqState :
    (addr val : ℕ) (ns : NvicState) → IsIrqState ns → IsIrqState (write_faults addr val ns)
unfolding write_faults
write_faults-IsIrqState addr val ns good = elim (Bool-cases (addr == 0xE000ED18)) [
  | inl e ↦ rw (e) (as_before ns _ good refl refl refl refl)
  | inr e ↦ elim (Bool-cases (addr == 0xE000ED24)) [
    | inl f ↦ rw (e, f) (as_before ns _ good refl refl refl refl)
    | inr f ↦ elim (Bool-cases (addr == 0xE000ED28)) [
      | inl g ↦ rw (e, f, g) (as_before ns _ good refl refl refl refl)
      | inr g ↦ elim (Bool-cases (addr == 0xE000ED2C)) [
        | inl h ↦ rw (e, f, g, h) (as_before ns _ good refl refl refl refl)
        | inr h ↦ elim (Bool-cases (addr == 0xE000ED34)) [
          | inl k ↦ rw (e, f, g, h, k) (as_before ns _ good refl refl refl refl)
          | inr k ↦ elim (Bool-cases (addr == 0xE000ED38)) [
            | inl l ↦ rw (e, f, g, h, k, l) (as_before ns _ good refl refl refl refl)
            | inr l ↦ rw (e, f, g, h, k, l) (good)
          ]
        ]
      ]
    ]
  ]
]

module _ {W : Type 0} where
  on_nvic-IsPpb :
      (f : NvicState → NvicState) (p : Ppb W)
      → IsPpb p
      → IsIrqState (f (nvic_cur p))
      → IsPpb (on_nvic f p)
  on_nvic-IsPpb f p good kept = record {
    core = λ c. elim (Bool-cases (p.active_core == c)) [
      | inl e ↦ rw e kept
      | inr e ↦ rw e (good.core c)
    ];
  }

  on_systick-IsPpb :
      (f : SystickState → SystickState) (p : Ppb W) → IsPpb p → IsPpb (on_systick f p)
  on_systick-IsPpb f p good = record { core = good.core }

  module _ (wake_cores : W → W) (latency : ℕ → W → W) where
    wake_if-IsPpb : (b : Bool) (p : Ppb W) → IsPpb p → IsPpb (wake_if wake_cores latency b p)
    wake_if-IsPpb true p good = record { core = good.core }
    wake_if-IsPpb false p good = good

    nvic_if-IsPpb :
        (b : Bool) (f : NvicState → NvicState) (p : Ppb W)
        → IsPpb p
        → IsIrqState (f (nvic_cur p))
        → IsPpb (if b then on_nvic f p else p)
    nvic_if-IsPpb true f p good kept = on_nvic-IsPpb f p good kept
    nvic_if-IsPpb false f p good kept = good

    systick_if-IsPpb :
        (b : Bool) (f : SystickState → SystickState) (p : Ppb W)
        → IsPpb p
        → IsPpb (if b then on_systick f p else p)
    systick_if-IsPpb true f p good = on_systick-IsPpb f p good
    systick_if-IsPpb false f p good = good

    nvic_signal_irq-IsPpb :
        (irq : ℕ) (p : Ppb W) → IsPpb p → IsPpb (nvic_signal_irq wake_cores latency irq p)
    unfolding nvic_signal_irq
    nvic_signal_irq-IsPpb irq p good = elim (Bool-cases (ltb irq 64)) [
      | inl e ↦ rw e (record {
        core = λ c. elim (Bool-cases (ltb c 2)) [
          | inl f ↦
              let ns = p.nvic_states c in
              rw f (
                with_pending _ ns (good.core c) (
                  nvic_bit_set-IsWords ns.pending irq
                    (words ns.pending (good.core c).pending_words)))
          | inr f ↦ rw f (good.core c)
        ];
      })
      | inr e ↦ rw e good
    ]

    nvic_set_pending-IsPpb :
        (irq : ℕ) (p : Ppb W) → IsPpb p → IsPpb (nvic_set_pending wake_cores latency irq p)
    unfolding nvic_set_pending
    nvic_set_pending-IsPpb irq p good =
        let ns = nvic_cur p in
        let kept =
          on_nvic-IsPpb (λ n. record n { pending = nvic_bit_set n.pending irq }) p good
            (with_pending _ ns (good.core p.active_core) (
              nvic_bit_set-IsWords ns.pending irq
                (words ns.pending (good.core p.active_core).pending_words))) in
        elim (Bool-cases (ltb irq 64)) [
          | inl e ↦ rw e (record { core = kept.core })
          | inr e ↦ rw e good
        ]

    pendsv-IsPpb :
        (b : Bool) (v : ℕ) (p : Ppb W)
        → IsPpb p
        → IsPpb (if b then on_nvic (λ ns. record ns { pendsv_pending = v }) p else p)
    pendsv-IsPpb b v p good =
        nvic_if-IsPpb b (λ ns. record ns { pendsv_pending = v }) p good
          (as_before (nvic_cur p) _ (good.core p.active_core) refl refl refl refl)

    write_icsr-IsPpb : (val : ℕ) (p : Ppb W) → IsPpb p → IsPpb (write_icsr wake_cores latency val p)
    unfolding write_icsr
    write_icsr-IsPpb val p good =
        let k1 = pendsv-IsPpb (has_bit val 29) 0 p good in
        let k2 = systick_if-IsPpb (has_bit val 31) (λ st. record st { pending = 0 }) _ k1 in
        let k3 = pendsv-IsPpb (has_bit val 28) 1 _ k2 in
        let k4 = wake_if-IsPpb (has_bit val 28) _ k3 in
        let k5 = systick_if-IsPpb (has_bit val 30) (λ st. record st { pending = 1 }) _ k4 in
        wake_if-IsPpb (has_bit val 30) _ k5

    write_stir-IsPpb : (val : ℕ) (p : Ppb W) → IsPpb p → IsPpb (write_stir wake_cores latency val p)
    unfolding write_stir
    write_stir-IsPpb val p good =
        elim (Bool-cases (not (p.membus_rp2350_mode == 0) && ltb (bit_and val 0x1FF) 64)) [
          | inl e ↦ rw e (nvic_signal_irq-IsPpb (bit_and val 0x1FF) p good)
          | inr e ↦ rw e good
        ]

    write_aircr-IsPpb :
        (val : ℕ) (p : Ppb W) → IsPpb p → IsPpb (write_aircr wake_cores latency val p)
    unfolding write_aircr
    write_aircr-IsPpb val p good = elim (Bool-cases ((val >> 16 == 0x05FA) && has_bit val 2)) [
      | inl e ↦ rw e (record { core = good.core })
      | inr e ↦ rw e good
    ]

    shpr-IsPpb :
        (f : NvicState → NvicState) (p : Ppb W)
        → IsPpb p
        → (f (nvic_cur p)).enable ≡ (nvic_cur p).enable
        → (f (nvic_cur p)).pending ≡ (nvic_cur p).pending
        → (f (nvic_cur p)).priority ≡ (nvic_cur p).priority
        → (f (nvic_cur p)).priorities_nondefault ≡ (nvic_cur p).priorities_nondefault
        → IsPpb (on_nvic f p)
    shpr-IsPpb f p good e d r z =
        on_nvic-IsPpb f p good (as_before (nvic_cur p) _ (good.core p.active_core) e d r z)

    nvic_write_register-IsPpb :
        (addr val : ℕ) (p : Ppb W)
        → val < 2 ^ 32
        → IsPpb p
        → IsPpb (nvic_write_register wake_cores latency addr val p)
    unfolding nvic_write_register
    nvic_write_register-IsPpb addr val p small good =
        let cur = good.core p.active_core in
        let faults =
          on_nvic-IsPpb (write_faults addr val) p good
            (write_faults-IsIrqState addr val (nvic_cur p) cur) in
        elim (Bool-cases (addr == 0xE000EF00)) [
          | inl e ↦ rw (e) (write_stir-IsPpb val p good)
          | inr e ↦ elim (Bool-cases (leb 0xE000E010 addr && leb addr 0xE000E018)) [
            | inl f ↦ rw (e, f) (on_systick-IsPpb (write_systick addr val) p good)
            | inr f ↦ elim (Bool-cases (leb 0xE000E100 addr && leb addr 0xE000E43C)) [
              | inl g ↦
                  rw (e, f, g)
                    (on_nvic-IsPpb (write_irqs addr val) p good
                      (write_irqs-IsIrqState addr val (nvic_cur p) small cur))
              | inr g ↦ elim (Bool-cases (addr == 0xE000ED04)) [
                | inl h ↦ rw (e, f, g, h) (write_icsr-IsPpb val p good)
                | inr h ↦ elim (Bool-cases (addr == 0xE000ED08)) [
                  | inl k ↦ rw (e, f, g, h, k) (record { core = good.core })
                  | inr k ↦ elim (Bool-cases (addr == 0xE000ED1C)) [
                    | inl l ↦
                        rw (e, f, g, h, k, l)
                          (shpr-IsPpb (λ ns. record ns { shpr2 = bit_and val 0xC0000000 }) p good
                            refl refl refl refl)
                    | inr l ↦ elim (Bool-cases (addr == 0xE000ED20)) [
                      | inl m ↦
                          rw (e, f, g, h, k, l, m)
                            (shpr-IsPpb (λ ns. record ns { shpr3 = bit_and val 0xC0C00000 }) p good
                              refl refl refl refl)
                      | inr m ↦ elim (Bool-cases (addr == 0xE000ED0C)) [
                        | inl n ↦ rw (e, f, g, h, k, l, m, n) (write_aircr-IsPpb val p good)
                        | inr n ↦ elim (Bool-cases (p.membus_rp2350_mode == 0)) [
                          | inl o ↦ rw (e, f, g, h, k, l, m, n, o) (good)
                          | inr o ↦ rw (e, f, g, h, k, l, m, n, o) (record { core = faults.core })
                        ]
                      ]
                    ]
                  ]
                ]
              ]
            ]
          ]
        ]

    -- From a state in which both words of each core hold 32 bits and the fast-path flag is clear only
    -- when all effective priorities are 0, each of these leads to such a state: a write of any 32-bit
    -- value to any register address, a device's signal, pending, clearing, enabling, disabling and the
    -- priority of an interrupt, and the reset.
    pub operations-IsPpb :
        (addr val irq value : ℕ) (p : Ppb W)
        → val < 2 ^ 32
        → IsPpb p
        → IsPpb (nvic_write_register wake_cores latency addr val p)
          × IsPpb (nvic_signal_irq wake_cores latency irq p)
          × IsPpb (nvic_set_pending wake_cores latency irq p)
          × IsPpb (on_nvic (nvic_clear_pending irq) p)
          × IsPpb (on_nvic (nvic_enable_irq irq) p)
          × IsPpb (on_nvic (nvic_disable_irq irq) p)
          × IsPpb (on_nvic (nvic_set_priority irq value) p)
          × IsPpb (nvic_reset p)
    operations-IsPpb addr val irq value p small good =
        let ns = nvic_cur p in
        let cur = good.core p.active_core in
        let zero_state : IsPpb (nvic_reset p) = record {
          core = λ c. record {
            enable_words = λ i. omega arith;
            pending_words = λ i. omega arith;
            flag = λ j h z. refl;
          };
        } in
        (
          nvic_write_register-IsPpb addr val p small good,
          nvic_signal_irq-IsPpb irq p good,
          nvic_set_pending-IsPpb irq p good,
          on_nvic-IsPpb (nvic_clear_pending irq) p good (nvic_clear_pending-IsIrqState irq ns cur),
          on_nvic-IsPpb (nvic_enable_irq irq) p good (nvic_enable_irq-IsIrqState irq ns cur),
          on_nvic-IsPpb (nvic_disable_irq irq) p good (nvic_disable_irq-IsIrqState irq ns cur),
          on_nvic-IsPpb (nvic_set_priority irq value) p good
              (nvic_set_priority-IsIrqState irq value ns cur),
          zero_state,
        )
