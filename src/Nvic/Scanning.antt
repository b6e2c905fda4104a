-- ===== src/Nvic/Scanning.antt =====
-- The loop of `nvic_get_pending_irq` of src/nvic.c over the set bits of a word.
use native.Mathlib.Nat.{zero-div, pow-suc, pow-le-pow_right}
use picoemu.Base.{
  ℕ, zero, suc, ◌+◌, ◌-◌, ◌*◌, ◌^◌, ◌≤◌, ◌<◌, ◌≡◌, refl, ap, ◌∙◌, ◌⊎◌, inl, inr, bit_and, ◌&&◌,
  ◌||◌, Bool-cases, ltb, ◌==◌, arith,
}
use picoemu.Base.Scan.{ctz, bit, ctz-LowestBit, clear_lowest, bit-below, bit-lowest, bit-above}
use picoemu.Nvic.Irq.{Best, consider, scan_bits}

-- The effective priority, and the order of interrupts: by priority, then by number.
abbrev pub effective : (ℕ → ℕ) → ℕ → ℕ
effective priority irq = bit_and (priority irq) 0xC0

abbrev pub rank : (ℕ → ℕ) → ℕ → ℕ
rank priority irq = effective priority irq * 2 ^ 32 + irq

abbrev pub key : Best → ℕ
key best = best.1 * 2 ^ 32 + best.0

abbrev pub chosen : (ℕ → ℕ) → ℕ → Best
chosen priority irq = (irq, effective priority irq)

-- What a scan of the word `bits` from `best` finds.
pub record Scanned (priority : ℕ → ℕ) (base bits : ℕ) (best out : Best) : Type 0 where
  pub not_above : key out ≤ key best
  pub least : (j : ℕ) → j < 32 → bit bits j ≡ 1 → key out ≤ rank priority (base + j)
  pub attained :
      (out ≡ best) ⊎ ((j : ℕ) × (j < 32) × (bit bits j ≡ 1) × (out ≡ chosen priority (base + j)))

-- What the body of the loop makes of the best so far.
record Considered (priority : ℕ → ℕ) (irq : ℕ) (best out : Best) : Type 0 where
  pub not_above : key out ≤ key best
  pub below : key out ≤ rank priority irq
  pub which : (out ≡ best) ⊎ (out ≡ chosen priority irq)
  pub words : out.0 < 2 ^ 32

-- Nothing is below the empty word.
pub empty : (bits j : ℕ) → bits ≡ 0 → bit bits j ≡ 0
empty bits j e = ap (λ (t : ℕ). bit t j) e ∙ rw (zero-div (2 ^ j)) refl

higher_bit :
    (low above j : ℕ) → bit (above * 2 ^ suc low) j ≡ 1 → bit ((2 * above + 1) * 2 ^ low) j ≡ 1
higher_bit low above j set = elim (Bool-cases (ltb low j)) [
  | inl e ↦ bit-above low above j (ground arith) ∙ set
  | inr e ↦ absurd (omega (arith, bit-below (suc low) above j (ground arith)))
]

no_bits_left : (m q bits : ℕ) → 32 ≤ m → bits ≡ q * 2 ^ m → bits < 2 ^ 32 → bits ≡ 0
no_bits_left m zero bits h e top = omega arith
no_bits_left m (suc q) bits h e top =
    absurd (omega (arith, pow-le-pow_right {n = 2} (omega arith) h))

module _ (priority : ℕ → ℕ) where
  consider-Considered :
      (irq : ℕ) (best : Best)
      → irq < 2 ^ 32
      → best.0 < 2 ^ 32
      → Considered priority irq best (consider priority irq best)
  unfolding consider
  consider-Considered irq (b, v) p q =
      let prio = effective priority irq in
      elim (Bool-cases (ltb prio v || ((prio == v) && ltb irq b))) [
        | inl e ↦
            rw e (record {
              not_above = ground arith;
              below = omega arith;
              which = inr refl;
              words = p;
            })
        | inr e ↦
            rw e (record {
              not_above = omega arith;
              below = ground arith;
              which = inl refl;
              words = q;
            })
      ]

  nothing : (base bits : ℕ) (best : Best) → bits ≡ 0 → Scanned priority base bits best best
  nothing base bits best e = record {
    not_above = omega arith;
    least = λ j h one. absurd (omega (arith, empty bits j e));
    attained = inl refl;
  }

  module _ (base : ℕ) (small : base ≤ 32) where
    -- One turn: `low` is the lowest set bit, and the rest of the word is scanned from there.
    turn :
        (low above : ℕ) (best out : Best)
        → low < 32
        → best.0 < 2 ^ 32
        → Scanned priority base (above * 2 ^ suc low) (consider priority (base + low) best) out
        → Scanned priority base ((2 * above + 1) * 2 ^ low) best out
    turn low above best out inside hb rest =
        let seen = consider-Considered (base + low) best (omega arith) hb in
        let one = bit-lowest low above in
        record {
          not_above = omega (arith, rest.not_above, seen.not_above);
          least = λ j h set. elim (Bool-cases (ltb j low)) [
            | inl e ↦ absurd (omega (arith, bit-below low (2 * above + 1) j (ground arith)))
            | inr e ↦ elim (Bool-cases (j == low)) [
              | inl f ↦
                  let same : j ≡ low = ground arith in
                  rw same (omega (arith, rest.not_above, seen.below))
              | inr f ↦
                  let up : low < j = ground arith in
                  rest.least j h (omega (arith, bit-above low above j up))
            ]
          ];
          attained = elim rest.attained [
            | inl e ↦ elim seen.which [
              | inl f ↦ inl (e ∙ f)
              | inr f ↦ inr (low, inside, one, e ∙ f)
            ]
            | inr (j, h, set, e) ↦ inr (j, h, higher_bit low above j set, e)
          ];
        }

    turn_at :
        (bits low above : ℕ) (best out : Best)
        → bits ≡ (2 * above + 1) * 2 ^ low
        → low < 32
        → best.0 < 2 ^ 32
        → Scanned priority base (above * 2 ^ suc low) (consider priority (base + low) best) out
        → Scanned priority base bits best out
    turn_at bits low above best out form inside hb rest =
        rw form (turn low above best out inside hb rest)

    pub scan_bits-Scanned :
        (fuel m q : ℕ) (bits : ℕ) (best : Best)
        → 32 ≤ fuel + m
        → bits ≡ q * 2 ^ m
        → bits < 2 ^ 32
        → best.0 < 2 ^ 32
        → Scanned priority base bits best (scan_bits fuel priority base bits best)
    unfolding scan_bits
    scan_bits-Scanned zero m q bits best enough e top hb =
        nothing base bits best (no_bits_left m q bits (omega arith) e top)
    scan_bits-Scanned (suc fuel) m q bits best enough e top hb = elim (Bool-cases (bits == 0)) [
      | inl z ↦ rw z (nothing base bits best (ground arith))
      | inr more ↦
          let l = ctz-LowestBit 32 bits (ground arith) top in
          let low = ctz 32 bits in
          let rest = l.above * 2 ^ suc low in
          let here : bit bits low ≡ 1 = ap (λ (t : ℕ). bit t low) l.form ∙ bit-lowest low l.above in
          let up : m ≤ low = elim (Bool-cases (ltb low m)) [
            | inl f ↦
                absurd (
                  omega
                    (arith, here, ap (λ (t : ℕ). bit t low) e, bit-below m q low (ground arith)))
            | inr f ↦ ground arith
          ] in
          let cleared : bit_and bits (bits - 1) ≡ rest =
            ap (λ (t : ℕ). bit_and t (t - 1)) l.form ∙ clear_lowest low l.above in
          let less : rest ≤ bits =
            omega (arith, l.form, ap (λ (t : ℕ). l.above * t) (pow-suc 2 low)) in
          let seen = consider-Considered (base + low) best (omega (arith, l.inside)) hb in
          rw (more, cleared)
            (turn_at bits low l.above best
              (scan_bits fuel priority base rest (consider priority (base + low) best)) l.form
              l.inside hb
              (scan_bits-Scanned fuel (suc low) l.above rest (consider priority (base + low) best)
                (omega arith) refl (omega arith) seen.words))
    ]
