-- ===== src/Thumb/Loaded.antt =====
-- The loop of LDMIA and POP in src/instructions.c: what each register receives.
use picoemu.Base.{
  ℕ, zero, suc, ◌+◌, ◌-◌, ◌*◌, ◌≤◌, ◌<◌, ◌≡◌, refl, sym, ap, ◌∙◌, ◌≢◌, ◌⊎◌, inl, inr, true, false,
  ltb, ltb→lt, Bool-cases, u32, arith,
}
use mathlib.Core.Bool.{false≢true}
use picoemu.Thumb.State.{update, Machine, Env}
use picoemu.Thumb.Block.{in_list, load_loop, load_step}
use picoemu.Thumb.Ram.{IsRam, listed, listed_mono, listed-next}

module _ {W : Type 0} (env : Env W) (lo hi rlist : ℕ) (ram : IsRam env lo hi) where
  -- What the load loop has done after registers `i` to `i + left - 1`, from address `addr` on.
  pub record Loaded (left i addr : ℕ) (m : Machine W) (out : ℕ × Machine W) : Type 0 where
    pub pointer : out.0 + 4 * listed rlist i ≡ addr + 4 * listed rlist (i + left)
    pub same_world : out.1.world ≡ m.world
    pub restored :
        (j : ℕ)
        → i ≤ j
        → j < i + left
        → in_list rlist j ≡ true
        → out.1.cpu.r j
          ≡ (env.mem_read32 (addr + 4 * listed rlist j - 4 * listed rlist i) m.world).0
    pub untouched :
        (j : ℕ) → (j < i) ⊎ (i + left ≤ j) ⊎ (in_list rlist j ≡ false) → out.1.cpu.r j ≡ m.cpu.r j

  module _ (left i addr : ℕ) (m : Machine W) (out : ℕ × Machine W) (low : lo ≤ addr)
      (room : addr + 4 * listed rlist (i + suc left) ≤ hi + 4 * listed rlist i) where
    apart :
        in_list rlist i ≡ true
        → (j : ℕ) → (j < i) ⊎ (i + suc left ≤ j) ⊎ (in_list rlist j ≡ false)
        → i ≢ j
    apart take j (inl before) same = absurd (omega arith)
    apart take j (inr (inl behind)) same = absurd (omega arith)
    apart take j (inr (inr skip)) same = absurd (false≢true (sym skip ∙ rw same at take))

    updated_self : (k value : ℕ) → update m.cpu.r k value k ≡ value
    updated_self k value = ground arith

    updated_ne : (k j value : ℕ) → k ≢ j → update m.cpu.r k value j ≡ m.cpu.r j
    updated_ne k j value ne = ground arith

    shift : i + 1 + left ≡ i + suc left
    shift = omega arith

    skip-Loaded :
        in_list rlist i ≡ false → Loaded left (i + 1) addr m out → Loaded (suc left) i addr m out
    skip-Loaded skip rest =
        let e : listed rlist (i + 1) ≡ listed rlist i = rw (listed-next, skip) (omega arith) in
        record {
          pointer = rw (← shift, ← e) rest.pointer;
          same_world = rest.same_world;
          restored = λ j p q t. elim (Bool-cases (ltb i j)) [
            | inl later ↦
                rw (← e) (rest.restored j (omega (arith, ltb→lt i j later)) (omega arith) t)
            | inr now ↦
                let same : j ≡ i = ground arith in absurd (false≢true (sym skip ∙ rw same at t))
          ];
          untouched = λ j out_of. rest.untouched j (ground arith);
        }

    take-Loaded :
        in_list rlist i ≡ true
        → Loaded left (i + 1) (addr + 4) (load_step env i addr m) out
        → Loaded (suc left) i addr m out
    take-Loaded take rest =
        let e : listed rlist (i + 1) ≡ listed rlist i + 1 = rw (listed-next, take) in
        let some = listed_mono rlist (i + 1) (i + suc left) (omega arith) in
        let pure = ram.read_pure addr m.world low (omega arith) in
        record {
          pointer = omega (arith, rest.pointer, ap (listed rlist) shift);
          same_world = rest.same_world ∙ pure;
          restored = λ j p q t. elim (Bool-cases (ltb i j)) [
            | inl later ↦
                let grown = listed_mono rlist (i + 1) j (omega (arith, ltb→lt i j later)) in
                let at : addr + 4 + 4 * listed rlist j - 4 * listed rlist (i + 1)
                    ≡ addr + 4 * listed rlist j - 4 * listed rlist i =
                  omega arith in
                (rw at at (rest.restored j (omega (arith, ltb→lt i j later)) (omega arith) t))
                ∙ ap
                    (λ (w : W).
                      (env.mem_read32 (addr + 4 * listed rlist j - 4 * listed rlist i) w).0)
                    pure
            | inr now ↦
                let same : j ≡ i = ground arith in
                let at : addr + 4 * listed rlist i - 4 * listed rlist i ≡ addr = omega arith in
                rw (same, at) (rest.untouched i (inl (omega arith)) ∙ updated_self i _)
          ];
          untouched =
              λ j out_of. rest.untouched j (ground arith) ∙ updated_ne i j _ (apart take j out_of);
        }

  pub load_loop-Loaded :
      (left i addr : ℕ) (m : Machine W)
      → lo ≤ addr
      → addr + 4 * listed rlist (i + left) ≤ hi + 4 * listed rlist i
      → Loaded left i addr m (load_loop env left i rlist addr m)
  unfolding load_loop
  load_loop-Loaded zero i addr m low room = record {
    pointer = let e : i + 0 ≡ i = omega arith in rw e;
    same_world = refl;
    restored = λ j p q t. absurd (omega arith);
    untouched = λ j out_of. refl;
  }
  load_loop-Loaded (suc left) i addr m low room =
      let shift : i + 1 + left ≡ i + suc left = omega arith in
      elim (Bool-cases (in_list rlist i)) [
        | inr skip ↦
            let e : listed rlist (i + 1) ≡ listed rlist i = rw (listed-next, skip) (omega arith) in
            let rest = load_loop-Loaded left (i + 1) addr m low (rw (shift, e) room) in
            rw skip (skip-Loaded left i addr m _ low room skip rest)
        | inl take ↦
            let e : listed rlist (i + 1) ≡ listed rlist i + 1 = rw (listed-next, take) in
            let some = listed_mono rlist (i + 1) (i + suc left) (omega arith) in
            let up : u32 (addr + 4) ≡ addr + 4 = omega (arith, ram.bounded) in
            let fits : addr + 4 + 4 * listed rlist (i + 1 + left) ≤ hi + 4 * listed rlist (i + 1) =
              rw (shift, e) (omega arith) in
            let rest =
              load_loop-Loaded left (i + 1) (addr + 4) (load_step env i addr m) (omega arith)
                fits in
            rw (take, up) (take-Loaded left i addr m _ low room take rest)
      ]
