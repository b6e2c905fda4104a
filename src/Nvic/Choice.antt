-- ===== src/Nvic/Choice.antt =====
-- The interrupt that comes first, on the two paths of `nvic_get_pending_irq` of src/nvic.c.
use picoemu.Base.{
  ℕ, ◌+◌, ◌-◌, ◌*◌, ◌/◌, ◌%◌, ◌^◌, ◌≤◌, ◌<◌, ◌≡◌, sym, ap, ◌∙◌, inl, inr, Bool-cases, ltb, arith,
}
use picoemu.Base.Bits.{bit_and-lt, bit_and_mask, bit_and_test}
use picoemu.Base.Scan.{ctz, bit, ctz-LowestBit, bit-below, bit-lowest}
use picoemu.Nvic.State.{NvicState}
use picoemu.Nvic.Irq.{Best, requests}
use picoemu.Nvic.Scanning.{effective, rank, key, chosen, Scanned}

-- Both words hold 32 bits, and the flag of the fast path is clear only when every effective priority is 0.
pub record IsIrqState (ns : NvicState) : Type 0 where
  pub enable_words : (i : ℕ) → ns.enable i < 2 ^ 32
  pub pending_words : (i : ℕ) → ns.pending i < 2 ^ 32
  pub flag : (j : ℕ) → j < 64 → ns.priorities_nondefault ≡ 0 → effective ns.priority j ≡ 0

-- The bit of an interrupt in the two words of requests.
abbrev pub asks : NvicState → ℕ → ℕ
asks ns j = bit (requests ns (j / 32)) (j % 32)

-- An interrupt asks for service and comes before all others that do.
pub record IsFirst (ns : NvicState) (irq : ℕ) : Type 0 where
  pub inside : irq < 64
  pub here : asks ns irq ≡ 1
  pub least : (j : ℕ) → j < 64 → asks ns j ≡ 1 → rank ns.priority irq ≤ rank ns.priority j

pub asks-at : (ns : NvicState) (i k : ℕ) → k < 32 → asks ns (i * 32 + k) ≡ bit (requests ns i) k
asks-at ns i k h =
    ap (λ (t : ℕ). bit (requests ns t) ((i * 32 + k) % 32)) {x = (i * 32 + k) / 32} {y = i}
      (omega arith)
    ∙ ap (bit (requests ns i)) {x = (i * 32 + k) % 32} {y = k} (omega arith)

module _ (ns : NvicState) (good : IsIrqState ns) where
  pub requests-lt : (i : ℕ) → requests ns i < 2 ^ 32
  requests-lt i =
      bit_and-lt 32 (ns.pending i) (ns.enable i) (good.pending_words i) (good.enable_words i)

  -- The lowest request of a word.
  module _ (i : ℕ) (h : i < 2) (some_bit : 0 < requests ns i) where
    abbrev pub lowest : ℕ
    lowest = i * 32 + ctz 32 (requests ns i)

    pub lowest-lt : lowest < 64
    lowest-lt =
        let l = ctz-LowestBit 32 (requests ns i) some_bit (requests-lt i) in omega (arith, l.inside)

    pub asks-lowest : asks ns lowest ≡ 1
    asks-lowest =
        let l = ctz-LowestBit 32 (requests ns i) some_bit (requests-lt i) in
        asks-at ns i (ctz 32 (requests ns i)) l.inside
        ∙ ap (λ (t : ℕ). bit t (ctz 32 (requests ns i))) l.form
        ∙ bit-lowest (ctz 32 (requests ns i)) l.above

    below-lowest : (j : ℕ) → i * 32 ≤ j → j < lowest → asks ns j ≡ 0
    below-lowest j low top =
        let l = ctz-LowestBit 32 (requests ns i) some_bit (requests-lt i) in
        let k = j - i * 32 in
        let near : k < 32 = omega (arith, l.inside) in
        ap (asks ns) {x = j} {y = i * 32 + k} (omega arith)
        ∙ asks-at ns i k near
        ∙ ap (λ (t : ℕ). bit t k) l.form
        ∙ bit-below (ctz 32 (requests ns i)) (2 * l.above + 1) k (omega arith)

    -- The fast path: with all priorities 0 the rank is the number.
    module _ (all_zero : ns.priorities_nondefault ≡ 0) where
      rank-number : (j : ℕ) → j < 64 → rank ns.priority j ≡ j
      rank-number j h = omega (arith, good.flag j h all_zero)

      pub lowest-IsFirst : ((j : ℕ) → j < i * 32 → asks ns j ≡ 0) → IsFirst ns lowest
      lowest-IsFirst before = record {
        inside = lowest-lt;
        here = asks-lowest;
        least = λ j top set. elim (Bool-cases (ltb j lowest)) [
          | inl e ↦ elim (Bool-cases (ltb j (i * 32))) [
            | inl f ↦ absurd (omega (arith, before j (ground arith), set))
            | inr f ↦ absurd (omega (arith, below-lowest j (ground arith) (ground arith), set))
          ]
          | inr e ↦ ground (arith, rank-number lowest lowest-lt, rank-number j top)
        ];
      }

  effective-lt : (priority : ℕ → ℕ) (j : ℕ) → effective priority j ≤ 0xC0
  effective-lt priority j =
      omega (arith, bit_and_test 6 (priority j) 3, bit_and_mask 2 (priority j / 2 ^ 6))

  chosen-zero : (k : ℕ) → chosen ns.priority (0 + k) ≡ chosen ns.priority k
  chosen-zero k = ap (chosen ns.priority) (omega arith)

  IsFirst-of :
      (best : Best) (j : ℕ)
      → j < 64
      → best ≡ chosen ns.priority j
      → asks ns j ≡ 1
      → ((k : ℕ) → k < 64 → asks ns k ≡ 1 → key best ≤ rank ns.priority k)
      → IsFirst ns best.0
  IsFirst-of best j top e set least = rw e (record {
    inside = top;
    here = set;
    least = λ k inside asked. omega (arith, least k inside asked, ap key e);
  })

  -- The slow path: both words are scanned.
  pub chosen-IsFirst :
      (i : ℕ) (first second : Best)
      → i < 2
      → 0 < requests ns i
      → Scanned ns.priority 0 (requests ns 0) (0xFFFFFFFF, 0xFF) first
      → Scanned ns.priority 32 (requests ns 1) first second
      → IsFirst ns second.0
  chosen-IsFirst i first second h some_bit low high =
      let least : (j : ℕ) → j < 64 → asks ns j ≡ 1 → key second ≤ rank ns.priority j = λ j top set.
        elim (Bool-cases (ltb j 32)) [
          | inl e ↦
              let near : j < 32 = ground arith in
              let there : asks ns (0 * 32 + j) ≡ asks ns j = ap (asks ns) (omega arith) in
              let bound = low.least j near (sym (asks-at ns 0 j near) ∙ there ∙ set) in
              let same : 0 + j ≡ j = omega arith in
              omega (arith, high.not_above, bound, ap (rank ns.priority) same)
          | inr e ↦
              let k = j - 32 in
              let same : 32 + k ≡ j = ground arith in
              let there : asks ns (1 * 32 + k) ≡ asks ns j = ap (asks ns) (ground arith) in
              let near : k < 32 = ground arith in
              let bound = high.least k near (sym (asks-at ns 1 k near) ∙ there ∙ set) in
              omega (arith, bound, ap (rank ns.priority) same)
        ] in
      let start = least (lowest i h some_bit) (lowest-lt i h some_bit) (asks-lowest i h some_bit) in
      let bounded = effective-lt ns.priority (lowest i h some_bit) in
      let small = lowest-lt i h some_bit in
      elim high.attained [
        | inl e ↦ elim low.attained [
          | inl f ↦ absurd (omega (arith, start, bounded, small, ap key (e ∙ f)))
          | inr (k, near, set, f) ↦
              IsFirst-of second k (omega arith) (e ∙ f ∙ chosen-zero k)
                (ap (asks ns) {x = k} {y = 0 * 32 + k} (omega arith) ∙ asks-at ns 0 k near ∙ set)
                least
        ]
        | inr (k, near, set, f) ↦
            IsFirst-of second (32 + k) (omega arith) f (asks-at ns 1 k near ∙ set) least
      ]
