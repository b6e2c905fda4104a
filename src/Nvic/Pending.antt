-- ===== src/Nvic/Pending.antt =====
-- Which interrupt `nvic_get_pending_irq` of src/nvic.c returns.
use Prim.Native.Nat.{min, max}
use picoemu.Base.{
  ℕ, ◌+◌, ◌/◌, ◌%◌, ◌^◌, ◌≤◌, ◌<◌, ◌≡◌, refl, sym, ap, ◌∙◌, ◌⊎◌, inl, inr, bit_or, Bool, true,
  false, ◌&&◌, Bool-cases, ltb, ◌==◌, if◌then◌else◌, arith,
}
use picoemu.Base.Bits.{bit_and_mask}
use picoemu.Base.Scan.{ctz, bit, bit-bit_and, bit-bit_or, ctz-LowestBit, bit-lowest}
use picoemu.Nvic.State.{NvicState, nvic_bit_test}
use picoemu.Nvic.Irq.{Best, scan_bits, requests, nvic_get_pending_irq}
use picoemu.Nvic.Scanning.{rank, empty, Scanned, scan_bits-Scanned}
use picoemu.Nvic.Choice.{
  IsIrqState, asks, IsFirst, requests-lt, lowest, lowest-IsFirst, chosen-IsFirst,
}

-- The code's own tests of one interrupt: pending, and enabled.
abbrev pub is_requested : NvicState → ℕ → Bool
is_requested ns j = (nvic_bit_test ns.pending j == 1) && (nvic_bit_test ns.enable j == 1)

no_bit : (x : ℕ) → x < 2 ^ 32 → ((j : ℕ) → bit x j ≡ 0) → x ≡ 0
no_bit x top none_set = elim (Bool-cases (x == 0)) [
  | inl e ↦ ground arith
  | inr e ↦
      let l = ctz-LowestBit 32 x (ground arith) top in
      let set : bit x (ctz 32 x) ≡ 1 =
        ap (λ (t : ℕ). bit t (ctz 32 x)) l.form ∙ bit-lowest (ctz 32 x) l.above in
      absurd (omega (arith, set, none_set (ctz 32 x)))
]

or_zeros : (x y : ℕ) → x < 2 ^ 32 → y < 2 ^ 32 → bit_or x y ≡ 0 → (x ≡ 0) × (y ≡ 0)
or_zeros x y p q e =
    let gone : (j : ℕ) → max (bit x j) (bit y j) ≡ 0 =
      λ j. sym (bit-bit_or x y j) ∙ empty (bit_or x y) j e in
    (no_bit x p (λ j. omega (arith, gone j)), no_bit y q (λ j. omega (arith, gone j)))

module _ (ns : NvicState) (good : IsIrqState ns) where
  abbrev low : ℕ
  low = requests ns 0

  abbrev high : ℕ
  high = requests ns 1

  abbrev first : Best
  first = scan_bits 32 ns.priority 0 low (0xFFFFFFFF, 0xFF)

  first-Scanned : Scanned ns.priority 0 low (0xFFFFFFFF, 0xFF) first
  first-Scanned =
      scan_bits-Scanned ns.priority 0 (omega arith) 32 0 low low (0xFFFFFFFF, 0xFF) (omega arith)
        (omega arith) (requests-lt ns good 0) (omega arith)

  first-lt : first.0 < 2 ^ 32
  first-lt = elim first-Scanned.attained [
    | inl e ↦ omega (arith, ap (λ (b : Best). b.0) e)
    | inr (j, top, set, e) ↦ omega (arith, top, ap (λ (b : Best). b.0) e)
  ]

  second-Scanned : Scanned ns.priority 32 high first (scan_bits 32 ns.priority 32 high first)
  second-Scanned =
      scan_bits-Scanned ns.priority 32 (omega arith) 32 0 high high first (omega arith)
        (omega arith) (requests-lt ns good 1) first-lt

  no_requests : low ≡ 0 → high ≡ 0 → nvic_get_pending_irq ns ≡ 0xFFFFFFFF
  unfolding nvic_get_pending_irq
  no_requests e f = rw (e, f) refl

  some_request : 0 < low + high → (bit_or low high == 0) ≡ false
  some_request more = elim (Bool-cases (bit_or low high == 0)) [
    | inl e ↦
        let zeros =
          or_zeros low high (requests-lt ns good 0) (requests-lt ns good 1) (ground arith) in
        absurd (omega (arith, zeros.0, zeros.1))
    | inr e ↦ e
  ]

  slow-IsFirst :
      (i : ℕ)
      → i < 2
      → 0 < requests ns i
      → 0 < low + high
      → (ns.priorities_nondefault == 0) ≡ false
      → IsFirst ns (nvic_get_pending_irq ns)
  unfolding nvic_get_pending_irq
  slow-IsFirst i h some_bit more e =
      rw (some_request more, e)
        (chosen-IsFirst ns good i first (scan_bits 32 ns.priority 32 high first) h some_bit
          first-Scanned second-Scanned)

  fast_low-IsFirst :
      0 < low → (ns.priorities_nondefault == 0) ≡ true → IsFirst ns (nvic_get_pending_irq ns)
  unfolding nvic_get_pending_irq
  fast_low-IsFirst some_bit e =
      let f : (low == 0) ≡ false = ground arith in
      let same : lowest ns good 0 (omega arith) some_bit ≡ ctz 32 low = omega arith in
      rw (some_request (omega arith), e, f, sym same)
        (lowest-IsFirst ns good 0 (omega arith) some_bit (ground arith)
          (λ j below. absurd (omega arith)))

  fast_high-IsFirst :
      low ≡ 0
      → 0 < high
      → (ns.priorities_nondefault == 0) ≡ true
      → IsFirst ns (nvic_get_pending_irq ns)
  unfolding nvic_get_pending_irq
  fast_high-IsFirst none_low some_bit e =
      let f : (low == 0) ≡ true = ground arith in
      rw (some_request (omega arith), e, f)
        (lowest-IsFirst ns good 1 (omega arith) some_bit (ground arith) (λ j below.
          ap (λ (t : ℕ). bit (requests ns t) (j % 32)) {x = j / 32} {y = 0} (omega arith)
          ∙ empty low (j % 32) none_low))

  outcome :
      ((nvic_get_pending_irq ns ≡ 0xFFFFFFFF) × (low ≡ 0) × (high ≡ 0))
      ⊎ IsFirst ns (nvic_get_pending_irq ns)
  outcome = elim (Bool-cases (low == 0)) [
    | inl e ↦
        let none_low : low ≡ 0 = ground arith in
        elim (Bool-cases (high == 0)) [
          | inl f ↦
              let none_high : high ≡ 0 = ground arith in
              inl (no_requests none_low none_high, none_low, none_high)
          | inr f ↦
              let some_bit : 0 < high = ground arith in
              inr (elim (Bool-cases (ns.priorities_nondefault == 0)) [
                | inl fast ↦ fast_high-IsFirst none_low some_bit fast
                | inr slow ↦ slow-IsFirst 1 (omega arith) some_bit (omega arith) slow
              ])
        ]
    | inr e ↦
        let some_bit : 0 < low = ground arith in
        inr (elim (Bool-cases (ns.priorities_nondefault == 0)) [
          | inl fast ↦ fast_low-IsFirst some_bit fast
          | inr slow ↦ slow-IsFirst 0 (omega arith) some_bit (omega arith) slow
        ])
  ]

  asks-none : (j : ℕ) → j < 64 → low ≡ 0 → high ≡ 0 → asks ns j ≡ 0
  asks-none j top none_low none_high =
      let word : requests ns (j / 32) ≡ 0 = elim (Bool-cases (ltb j 32)) [
        | inl e ↦ ap (requests ns) {x = j / 32} {y = 0} (ground arith) ∙ none_low
        | inr e ↦ ap (requests ns) {x = j / 32} {y = 1} (ground arith) ∙ none_high
      ] in
      empty (requests ns (j / 32)) (j % 32) word

  test-bit : (w : ℕ → ℕ) (j : ℕ) → nvic_bit_test w j ≡ bit (w (j / 32)) (j % 32)
  unfolding nvic_bit_test
  test-bit w j = rw (bit_and_mask 5 j, bit_and_mask 1 (w (j / 32) / 2 ^ (j % 32))) refl

  asks-tests : (j : ℕ) → asks ns j ≡ min (nvic_bit_test ns.pending j) (nvic_bit_test ns.enable j)
  asks-tests j =
      rw (test-bit ns.pending j, test-bit ns.enable j)
        (bit-bit_and (ns.pending (j / 32)) (ns.enable (j / 32)) (j % 32))

  is_requested-asks : (j : ℕ) → is_requested ns j ≡ (asks ns j == 1)
  is_requested-asks j =
      let p : nvic_bit_test ns.pending j < 2 = omega (arith, test-bit ns.pending j) in
      let q : nvic_bit_test ns.enable j < 2 = omega (arith, test-bit ns.enable j) in
      rw (asks-tests j) (ground arith)

  -- In a state of 32-bit words whose fast-path flag is clear only when all effective priorities are 0,
  -- for each of the 64 interrupts: if it is pending and enabled, what is returned is pending and enabled
  -- and has a lower priority value, or the same and no higher number; if not, what is returned is either
  -- pending and enabled too or 0xFFFFFFFF.
  pub nvic_get_pending_irq-rank :
      (j : ℕ)
      → j < 64
      → let out = nvic_get_pending_irq ns in
        if is_requested ns j
        then (out < 64) × (is_requested ns out ≡ true) × (rank ns.priority out ≤ rank ns.priority j)
        else (out ≡ 0xFFFFFFFF)
        ⊎ ((out < 64) × (is_requested ns out ≡ true))
  nvic_get_pending_irq-rank j top = elim outcome [
    | inl (e, none_low, none_high) ↦
        let gone = asks-none j top none_low none_high in
        let quiet : (asks ns j == 1) ≡ false = ground arith in
        rw (is_requested-asks j, quiet) (inl e)
    | inr first_irq ↦
        let out = nvic_get_pending_irq ns in
        let here : (asks ns out == 1) ≡ true = ground (arith, first_irq.here) in
        let granted : is_requested ns out ≡ true = is_requested-asks out ∙ here in
        elim (Bool-cases (asks ns j == 1)) [
          | inl e ↦
              rw (is_requested-asks j, e)
                (first_irq.inside, granted, first_irq.least j top (ground arith))
          | inr e ↦ rw (is_requested-asks j, e) (inr (first_irq.inside, granted))
        ]
  ]

  -- The interrupt that is returned is one of the 64.
  pub nvic_get_pending_irq-lt :
      (nvic_get_pending_irq ns == 0xFFFFFFFF) ≡ false → nvic_get_pending_irq ns < 64
  nvic_get_pending_irq-lt found = elim outcome [
    | inl (e, none_low, none_high) ↦ absurd (ground (arith, e))
    | inr first_irq ↦ first_irq.inside
  ]
