-- ===== src/Nvic/Ticking.antt =====
-- SysTick of src/nvic.c against the counter that goes down by one in each cycle.
use native.Mathlib.Nat.{
  mod_self, mod-eq_of_lt, mod-add-mod, mod-eq-sub-mod, div-add-mod', mod-lt, add-mul-mod_self_right,
}
use picoemu.Base.{
  ℕ, zero, suc, ◌+◌, ◌-◌, ◌*◌, ◌/◌, ◌%◌, ◌≤◌, ◌<◌, ◌≡◌, refl, sym, ap, ◌∙◌, inl, inr, bit_and, true,
  false, Bool-cases, leb, ltb, ◌==◌, if◌then◌else◌, arith,
}
use picoemu.Nvic.Systick.{Ticked, fire, systick_loop, tick_state}
use picoemu.Nvic.Turns.{
  set_cvr, fire-cvr, set_cvr-fire, fire-fire, fire-set_cvr, loop-done, loop-zero, loop-short,
  loop-next, loop-skip,
}

-- The counter's cycle as hardware has it: down by one, and at zero the flag, the reload and the
-- exception.
abbrev pub cycle : {W : Type 0} → (W → W) → ℕ → Ticked W → Ticked W
cycle wake reload s =
    if leb s.0.cvr 1 then fire wake reload s else (record s.0 { cvr = s.0.cvr - 1 }, s.1)

abbrev pub cycles : {W : Type 0} → (W → W) → ℕ → ℕ → Ticked W → Ticked W
cycles wake reload zero s = s
cycles wake reload (suc n) s = cycle wake reload (cycles wake reload n s)

module _ (r : ℕ) (big : 0 < r) where
  mod-next : (a : ℕ) → (a + 1) % r ≡ (if leb r (a % r + 1) then 0 else a % r + 1)
  mod-next a = elim (Bool-cases (leb r (a % r + 1))) [
    | inl e ↦
        let last : a % r + 1 ≡ r = ground (arith, mod-lt a {m = r} big) in
        rw e (sym (mod-add-mod a r 1) ∙ rw last (mod_self r))
    | inr e ↦ rw e (sym (mod-add-mod a r 1) ∙ mod-eq_of_lt (ground arith))
  ]

module _ {W : Type 0} (wake : W → W) (again : (w : W) → wake (wake w) ≡ wake w) where
  module _ (r : ℕ) (big : 0 < r) where
    -- Where the counter stands `m` cycles after the event.
    after_event : ℕ → Ticked W → Ticked W
    after_event m s = fire wake (r - m % r) s

    -- Right after the event, within one period.
    settle :
        (fuel m : ℕ) (s : Ticked W)
        → m ≤ r
        → systick_loop wake (suc (suc fuel)) r m (fire wake r s) ≡ after_event m s
    unfolding after_event
    settle fuel zero s h =
        loop-done wake again (suc (suc fuel)) r (fire wake r s)
        ∙ ap (λ (t : ℕ). fire wake t s) (omega (arith, mod-eq_of_lt {n = 0} {m = r} big))
    settle fuel (suc m) s h = elim (Bool-cases (ltb (suc m) r)) [
      | inl e ↦
          let inside : suc m < r = ground arith in
          loop-short wake again (suc fuel) r (suc m) r (fire wake r s) (fire-cvr wake again r s)
            (omega arith) inside
          ∙ set_cvr-fire wake again (r - suc m) r s
          ∙ ap (λ (t : ℕ). fire wake t s) (omega (arith, mod-eq_of_lt inside))
      | inr e ↦
          let same : suc m ≡ r = ground arith in
          let whole : suc m % r ≡ 0 = ap (λ (t : ℕ). t % r) same ∙ mod_self r in
          loop-next wake again (suc fuel) r (suc m) r (fire wake r s) (fire-cvr wake again r s)
            (omega arith) big big (omega arith) (omega arith)
          ∙ ap (λ (t : ℕ). systick_loop wake (suc fuel) r t (fire wake r (fire wake r s)))
              {x = suc m - r} {y = 0} (omega arith)
          ∙ loop-done wake again (suc fuel) r (fire wake r (fire wake r s))
          ∙ fire-fire wake again r r s
          ∙ ap (λ (t : ℕ). fire wake t s) (omega (arith, whole))
    ]

    -- The same after two events in a row.
    settle_twice :
        (fuel m : ℕ) (s : Ticked W)
        → m ≤ r
        → systick_loop wake (suc (suc fuel)) r m (fire wake r (fire wake r s)) ≡ after_event m s
    settle_twice fuel m s h =
        ap (systick_loop wake (suc (suc fuel)) r m) (fire-fire wake again r r s) ∙ settle fuel m s h

    after_event-same : (m n : ℕ) (s : Ticked W) → m % r ≡ n % r → after_event m s ≡ after_event n s
    unfolding after_event
    after_event-same m n s e = ap (λ (t : ℕ). fire wake (r - t) s) e

    -- Right after the event, for any number of cycles.
    run :
        (fuel m : ℕ) (s : Ticked W)
        → systick_loop wake (suc (suc (suc fuel))) r m (fire wake r s) ≡ after_event m s
    run fuel m s = elim (Bool-cases (leb m r)) [
      | inl e ↦ settle (suc fuel) m s (ground arith)
      | inr e ↦
          let left = m - r in
          let full = (left - 1) / r in
          let more : 0 < m = ground arith in
          let reach : r ≤ m = ground arith in
          let later : m % r ≡ left % r = mod-eq-sub-mod reach in
          elim (Bool-cases (leb left r)) [
            | inl near ↦
                loop-next wake again (suc (suc fuel)) r m r (fire wake r s)
                  (fire-cvr wake again r s) more big big reach (ground arith)
                ∙ settle_twice fuel left s (ground arith)
                ∙ after_event-same left m s (sym later)
            | inr far ↦
                let parts = div-add-mod' (left - 1) r in
                let rest : left - full * r ≤ r =
                  ground (arith, mod-lt (left - 1) {m = r} big, parts) in
                let whole : left ≡ left - full * r + full * r = ground (arith, parts) in
                let same : left % r ≡ (left - full * r) % r =
                  ap (λ (t : ℕ). t % r) whole ∙ add-mul-mod_self_right (left - full * r) full r in
                loop-skip wake again (suc (suc fuel)) r m r (fire wake r s)
                  (fire-cvr wake again r s) more big big reach (ground arith)
                ∙ settle_twice fuel (left - full * r) s rest
                ∙ after_event-same (left - full * r) m s (sym (later ∙ same))
          ]
    ]

    -- The loop from a counter that is not at zero, past its event.
    past_event :
        (n c : ℕ) (s : Ticked W)
        → s.0.cvr ≡ c
        → 0 < c
        → c ≤ n
        → systick_loop wake 5 r n s ≡ after_event (n - c) s
    past_event n c s here up reach = elim (Bool-cases (leb (n - c) r)) [
      | inl near ↦
          loop-next wake again 4 r n c s here (omega arith) big up reach (ground arith)
          ∙ run 1 (n - c) s
      | inr far ↦
          let left = n - c in
          let full = (left - 1) / r in
          let parts = div-add-mod' (left - 1) r in
          let whole : left ≡ left - full * r + full * r = ground (arith, parts) in
          let same : left % r ≡ (left - full * r) % r =
            ap (λ (t : ℕ). t % r) whole ∙ add-mul-mod_self_right (left - full * r) full r in
          loop-skip wake again 4 r n c s here (omega arith) big up reach (ground arith)
          ∙ run 1 (left - full * r) s
          ∙ after_event-same (left - full * r) left s (sym same)
    ]

    -- The cycles before the event, at it, and after it.
    cycles-before :
        (n c : ℕ) (s : Ticked W)
        → s.0.cvr ≡ c
        → n < c
        → cycles wake r n s ≡ set_cvr wake again (c - n) s
    unfolding set_cvr
    cycles-before zero c s here h =
        ap (λ (t : ℕ). set_cvr wake again t s) {x = s.0.cvr} {y = c - 0} (omega arith)
    cycles-before (suc n) c s here h =
        let up : leb (c - n) 1 ≡ false = ground arith in
        ap (cycle wake r) (cycles-before n c s here (omega arith))
        ∙ rw up
            (ap (λ (t : ℕ). set_cvr wake again t s) {x = c - n - 1} {y = c - suc n} (omega arith))

    cycle-event : (s : Ticked W) → s.0.cvr ≤ 1 → cycle wake r s ≡ after_event 0 s
    unfolding after_event
    cycle-event s h =
        let low : leb s.0.cvr 1 ≡ true = ground arith in
        rw low (ap (λ (t : ℕ). fire wake t s) (omega (arith, mod-eq_of_lt {n = 0} {m = r} big)))

    cycle-after : (m : ℕ) (s : Ticked W) → cycle wake r (after_event m s) ≡ after_event (m + 1) s
    unfolding after_event set_cvr
    cycle-after m s =
        let at = fire-cvr wake again (r - m % r) s in
        let inside = mod-lt m {m = r} big in
        elim (Bool-cases (leb r (m % r + 1))) [
          | inl e ↦
              let next : (m + 1) % r ≡ 0 = ground (arith, mod-next r big m) in
              let low : leb (fire wake (r - m % r) s).0.cvr 1 ≡ true = ground (arith, at) in
              rw low (
                fire-fire wake again r (r - m % r) s
                ∙ ap (λ (t : ℕ). fire wake t s) (omega (arith, next)))
          | inr e ↦
              let next : (m + 1) % r ≡ m % r + 1 = ground (arith, mod-next r big m) in
              let low : leb (fire wake (r - m % r) s).0.cvr 1 ≡ false = ground (arith, at) in
              rw low (
                ap (λ (t : ℕ). set_cvr wake again (t - 1) (fire wake (r - m % r) s)) at
                ∙ set_cvr-fire wake again (r - m % r - 1) (r - m % r) s
                ∙ ap (λ (t : ℕ). fire wake t s) (omega (arith, next)))
        ]

    last_one : (n c : ℕ) (s : Ticked W) → suc n ≡ c → (set_cvr wake again (c - n) s).0.cvr ≤ 1
    unfolding set_cvr
    last_one n c s e = omega arith

    event-set_cvr :
        (x : ℕ) (s : Ticked W) → after_event 0 (set_cvr wake again x s) ≡ after_event 0 s
    unfolding after_event
    event-set_cvr x s = fire-set_cvr wake again x (r - 0 % r) s

    cycles-after :
        (n m c : ℕ) (s : Ticked W)
        → s.0.cvr ≡ c
        → 0 < c
        → n ≡ m + c
        → cycles wake r n s ≡ after_event m s
    cycles-after zero m c s here up e = absurd (omega arith)
    cycles-after (suc n) zero c s here up e =
        ap (cycle wake r) (cycles-before n c s here (omega arith))
        ∙ cycle-event (set_cvr wake again (c - n) s) (last_one n c s (omega arith))
        ∙ event-set_cvr (c - n) s
    cycles-after (suc n) (suc m) c s here up e =
        ap (cycle wake r) (cycles-after n m c s here up (omega arith))
        ∙ cycle-after m s
        ∙ ap (λ (t : ℕ). after_event t s) {x = m + 1} {y = suc m} (omega arith)

    cycles-from_zero :
        (n : ℕ) (s : Ticked W) → s.0.cvr ≡ 0 → cycles wake r (suc n) s ≡ after_event n s
    cycles-from_zero zero s here = cycle-event s (omega arith)
    cycles-from_zero (suc n) s here =
        ap (cycle wake r) (cycles-from_zero n s here)
        ∙ cycle-after n s
        ∙ ap (λ (t : ℕ). after_event t s) {x = n + 1} {y = suc n} (omega arith)

    systick_loop-cycles : (n : ℕ) (s : Ticked W) → systick_loop wake 5 r n s ≡ cycles wake r n s
    systick_loop-cycles zero s = loop-done wake again 5 r s
    systick_loop-cycles (suc n) s = elim (Bool-cases (s.0.cvr == 0)) [
      | inl e ↦
          let z : s.0.cvr ≡ 0 = ground arith in
          loop-zero wake again 4 r (suc n) 0 s z (omega arith) big refl
          ∙ run 1 (suc n - 1) s
          ∙ ap (λ (t : ℕ). after_event t s) {x = suc n - 1} {y = n} (omega arith)
          ∙ sym (cycles-from_zero n s z)
      | inr e ↦
          let up : 0 < s.0.cvr = ground arith in
          elim (Bool-cases (ltb (suc n) s.0.cvr)) [
            | inl f ↦
                loop-short wake again 4 r (suc n) s.0.cvr s refl (omega arith) (ground arith)
                ∙ sym (cycles-before (suc n) s.0.cvr s refl (ground arith))
            | inr f ↦
                past_event (suc n) s.0.cvr s refl up (ground arith)
                ∙ sym (cycles-after (suc n) (suc n - s.0.cvr) s.0.cvr s refl up (ground arith))
          ]
    ]

  -- Where waking the cores twice is waking them once: with SysTick enabled and a reload value that is
  -- not 0, a call for any number of cycles does what that many single cycles do, each of which counts
  -- down by one and at zero sets COUNTFLAG, reloads and pends; the loop ends within its fuel.
  pub tick_state-cycles :
      (n : ℕ) (s : Ticked W)
      → bit_and s.0.csr 1 ≡ 1
      → 0 < bit_and s.0.rvr 0x00FFFFFF
      → tick_state wake n s ≡ cycles wake (bit_and s.0.rvr 0x00FFFFFF) n s
  unfolding tick_state
  tick_state-cycles n s on big =
      let f : (bit_and s.0.csr 1 == 0) ≡ false = ground arith in
      rw f (systick_loop-cycles (bit_and s.0.rvr 0x00FFFFFF) big n s)
