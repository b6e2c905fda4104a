-- ===== src/Thumb/Pushed.antt =====
-- The loop of PUSH in src/instructions.c: where it leaves each register.
use picoemu.Base.{
  ℕ, zero, suc, ◌+◌, ◌-◌, ◌*◌, ◌≤◌, ◌<◌, ◌≡◌, refl, sym, ◌∙◌, inl, inr, true, false, ltb, ltb→lt,
  Bool-cases, sub32, arith,
}
use mathlib.Core.Bool.{false≢true}
use picoemu.Thumb.State.{Machine, Env, IsWord}
use picoemu.Thumb.Block.{in_list, push_loop, push_word}
use picoemu.Thumb.Ram.{IsRam, listed, listed-le, listed_mono}

module _ {W : Type 0} (env : Env W) (lo hi rlist : ℕ) (ram : IsRam env lo hi) where
  -- What the push loop has done after registers `n - 1` to 0.
  pub record Pushed (n sp : ℕ) (m : Machine W) (out : ℕ × Machine W) : Type 0 where
    pub pointer : out.0 ≡ sp - 4 * listed rlist n
    pub same_cpu : out.1.cpu ≡ m.cpu
    pub above :
        (a : ℕ)
        → sp ≤ a
        → a + 4 ≤ hi
        → (env.mem_read32 a out.1.world).0 ≡ (env.mem_read32 a m.world).0
    pub saved :
        (i : ℕ)
        → i < n
        → in_list rlist i ≡ true
        → (env.mem_read32 (sp - 4 * listed rlist n + 4 * listed rlist i) out.1.world).0 ≡ m.cpu.r i

  module _ (n sp : ℕ) (m : Machine W) (out : ℕ × Machine W) (v : IsWord m.cpu)
      (room : lo + 4 * suc n ≤ sp) (top : sp ≤ hi) where
    -- Register `n` is not listed.
    skip-Pushed : in_list rlist n ≡ false → Pushed n sp m out → Pushed (suc n) sp m out
    skip-Pushed skip rest =
        let e : listed rlist (suc n) ≡ listed rlist n = rw skip (omega arith) in
        record {
          pointer = omega (arith, rest.pointer);
          same_cpu = rest.same_cpu;
          above = rest.above;
          saved = λ i h t. elim (Bool-cases (ltb i n)) [
            | inl below ↦ rw e (rest.saved i (ltb→lt i n below) t)
            | inr last ↦
                let same : i ≡ n = ground arith in absurd (false≢true (sym skip ∙ rw same at t))
          ];
        }

    -- Register `n` is stored just below `sp`, and the others below that.
    take-Pushed :
        in_list rlist n ≡ true
        → Pushed n (sp - 4) (push_word env (sp - 4) (m.cpu.r n) m) out
        → Pushed (suc n) sp m out
    take-Pushed take rest =
        let e : listed rlist (suc n) ≡ listed rlist n + 1 = rw take in
        let few = listed-le rlist n in
        record {
          pointer = omega (arith, rest.pointer);
          same_cpu = rest.same_cpu;
          above = λ a p q.
              rest.above a (omega arith) q
              ∙ ram.read_other (sp - 4) a (m.cpu.r n) m.world (omega arith) (omega arith)
                  (omega arith) q (inl (omega arith));
          saved = λ i h t. elim (Bool-cases (ltb i n)) [
            | inl below ↦
                let some = listed_mono rlist i n (omega (arith, ltb→lt i n below)) in
                let at : sp - 4 * listed rlist (suc n) + 4 * listed rlist i
                    ≡ sp - 4 - 4 * listed rlist n + 4 * listed rlist i =
                  omega arith in
                rw at (rest.saved i (ltb→lt i n below) t)
            | inr last ↦
                let same : i ≡ n = ground arith in
                let at : sp - 4 * listed rlist (suc n) + 4 * listed rlist i ≡ sp - 4 =
                  rw same (omega arith) in
                rw (at, same)
                  (rest.above (sp - 4) (omega arith) (omega arith)
                    ∙ ram.read_self (sp - 4) (m.cpu.r n) m.world (omega arith) (omega arith)
                        (v.regs n))
          ];
        }

  pub push_loop-Pushed :
      (n sp : ℕ) (m : Machine W)
      → IsWord m.cpu
      → lo + 4 * n ≤ sp
      → sp ≤ hi
      → Pushed n sp m (push_loop env n rlist sp m)
  unfolding push_loop
  push_loop-Pushed zero sp m v room top = record {
    pointer = omega arith;
    same_cpu = refl;
    above = λ a p q. refl;
    saved = λ i h t. absurd (omega arith);
  }
  push_loop-Pushed (suc n) sp m v room top = elim (Bool-cases (in_list rlist n)) [
    | inr skip ↦
        let rest = push_loop-Pushed n sp m v (omega arith) top in
        rw skip (skip-Pushed n sp m _ v room top skip rest)
    | inl take ↦
        let down : sub32 sp 4 ≡ sp - 4 = omega (arith, ram.bounded) in
        let rest =
          push_loop-Pushed n (sp - 4) (push_word env (sp - 4) (m.cpu.r n) m) v (omega arith)
            (omega arith) in
        rw (take, down) (take-Pushed n sp m _ v room top take rest)
  ]
