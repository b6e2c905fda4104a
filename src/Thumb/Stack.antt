-- ===== src/Thumb/Stack.antt =====
-- PUSH and POP of src/instructions.c together.
use picoemu.Base.{
  ℕ, ◌+◌, ◌-◌, ◌*◌, ◌≤◌, ◌<◌, ◌≡◌, ap, ◌∙◌, ◌≢◌, ◌⊎◌, inl, inr, bit_and, true, false, ◌&&◌, ◌||◌,
  Bool-cases, ltb, ◌==◌, if◌then◌else◌, arith,
}
use picoemu.Thumb.State.{Cpu, set_reg, Machine, Env, on_cpu, IsWord}
use picoemu.Thumb.Flags.{bits}
use picoemu.Thumb.Block.{in_list, load_loop, push_loop, instr_push, instr_pop}
use picoemu.Thumb.Ram.{IsRam, listed, listed-le}
use picoemu.Thumb.Pushed.{push_loop-Pushed}
use picoemu.Thumb.Loaded.{load_loop-Loaded}

module _ {W : Type 0} (env : Env W) (lo hi : ℕ) (ram : IsRam env lo hi) where
  -- The two loops with the same list: any register file may come between, at the same memory.
  pub record Restored (rlist sp : ℕ) (m m1 : Machine W) (c : Cpu) (out : ℕ × Machine W)
      : Type 0 where
    pub pointer : out.0 ≡ sp
    pub same_world : out.1.world ≡ m1.world
    pub listed_back : (i : ℕ) → i < 8 → in_list rlist i ≡ true → out.1.cpu.r i ≡ m.cpu.r i
    pub others : (i : ℕ) → (8 ≤ i) ⊎ (in_list rlist i ≡ false) → out.1.cpu.r i ≡ c.r i

  pub loops-Restored :
      (rlist sp start : ℕ) (m : Machine W) (c : Cpu)
      → IsWord m.cpu
      → lo + 32 ≤ sp
      → sp ≤ hi
      → let (low, m1) = push_loop env 8 rlist sp m in
        start ≡ low
        → Restored rlist sp m m1 c (load_loop env 8 0 rlist start (record m1 { cpu = c }))
  loops-Restored rlist sp start m c v room top e =
      let m1 = (push_loop env 8 rlist sp m).1 in
      let down = push_loop-Pushed env lo hi rlist ram 8 sp m v (omega arith) top in
      let few = listed-le rlist 8 in
      let low : start ≡ sp - 4 * listed rlist 8 = e ∙ down.pointer in
      let up =
        load_loop-Loaded env lo hi rlist ram 8 0 start (record m1 { cpu = c }) (omega arith)
          (omega arith) in
      record {
        pointer = omega (arith, up.pointer);
        same_world = up.same_world;
        listed_back = λ i h t.
            let at : start + 4 * listed rlist i - 4 * listed rlist 0
                ≡ sp - 4 * listed rlist 8 + 4 * listed rlist i =
              omega arith in
            up.restored i (omega arith) (omega arith) t ∙ rw at (down.saved i h t);
        others = λ i out_of. up.untouched i (ground arith);
      }

  push_plain :
      (push : ℕ) (m : Machine W)
      → bits push 8 0x1 ≡ 0
      → instr_push env push m
        ≡ on_cpu
            (set_reg 13 (push_loop env 8 (bit_and push 0xFF) (m.cpu.r 13) m).0)
            (push_loop env 8 (bit_and push 0xFF) (m.cpu.r 13) m).1
  unfolding instr_push
  push_plain push m no_lr = rw no_lr

  pop_plain :
      (pop rlist : ℕ) (m : Machine W)
      → bits pop 8 0x1 ≡ 0
      → bit_and pop 0xFF ≡ rlist
      → instr_pop env pop m
        ≡ on_cpu
            (set_reg 13 (load_loop env 8 0 rlist (m.cpu.r 13) m).0)
            (load_loop env 8 0 rlist (m.cpu.r 13) m).1
  unfolding instr_pop
  pop_plain pop rlist m no_pc same = rw (no_pc, same)

  other_than_sp : (value i : ℕ) (c : Cpu) → i ≢ 13 → (set_reg 13 value c).r i ≡ c.r i
  other_than_sp value i c ne = ground arith

  popped :
      (push pop : ℕ) (m : Machine W) (c : Cpu)
      → IsWord m.cpu
      → lo + 32 ≤ m.cpu.r 13
      → m.cpu.r 13 ≤ hi
      → bits push 8 0x1 ≡ 0
      → bits pop 8 0x1 ≡ 0
      → bit_and pop 0xFF ≡ bit_and push 0xFF
      → c.r 13 ≡ (instr_push env push m).cpu.r 13
      → let rlist = bit_and push 0xFF in
        let after = (instr_pop env pop (record (instr_push env push m) { cpu = c })).cpu in
        ((i : ℕ) → i < 8 → in_list rlist i ≡ true → after.r i ≡ m.cpu.r i)
        × (after.r 13 ≡ m.cpu.r 13)
        × ((i : ℕ) → i ≢ 13 → (8 ≤ i) ⊎ (in_list rlist i ≡ false) → after.r i ≡ c.r i)
  popped push pop m c v room top no_lr no_pc same at =
      let rlist = bit_and push 0xFF in
      let sp = m.cpu.r 13 in
      let pushed = push_plain push m no_lr in
      let start : c.r 13 ≡ (push_loop env 8 rlist sp m).0 =
        at ∙ ap (λ (n : Machine W). n.cpu.r 13) pushed in
      let done = loops-Restored rlist sp (c.r 13) m c v room top start in
      let between = record (push_loop env 8 rlist sp m).1 { cpu = c } in
      let out = load_loop env 8 0 rlist (c.r 13) between in
      let popped : instr_pop env pop (record (instr_push env push m) { cpu = c })
          ≡ on_cpu (set_reg 13 out.0) out.1 =
        ap (λ (n : Machine W). instr_pop env pop (record n { cpu = c })) pushed
        ∙ pop_plain pop rlist between no_pc same in
      let reg = λ (i : ℕ). ap (λ (n : Machine W). n.cpu.r i) popped in
      (
        λ i h t. reg i ∙ other_than_sp out.0 i out.1.cpu (omega arith) ∙ done.listed_back i h t,
        reg 13 ∙ done.pointer,
        λ i ne out_of. reg i ∙ other_than_sp out.0 i out.1.cpu ne ∙ done.others i out_of,
      )

  -- PUSH of a register list at a valid state with 32 bytes of memory below the stack pointer, then
  -- POP of the same list, neither with LR or PC: whatever register file stands between, if its
  -- stack pointer is where PUSH left it and the memory is as PUSH left it, every listed register
  -- has its old value again, the stack pointer is back, and no other register changes at the POP.
  pub pop-push :
      (push pop i : ℕ) (m : Machine W) (c : Cpu)
      → IsWord m.cpu
      → lo + 32 ≤ m.cpu.r 13
      → m.cpu.r 13 ≤ hi
      → bits push 8 0x1 ≡ 0
      → bits pop 8 0x1 ≡ 0
      → bit_and pop 0xFF ≡ bit_and push 0xFF
      → c.r 13 ≡ (instr_push env push m).cpu.r 13
      → let listed = ltb i 8 && in_list (bit_and push 0xFF) i in
        (instr_pop env pop (record (instr_push env push m) { cpu = c })).cpu.r i
        ≡ (if listed || (i == 13) then m.cpu.r i else c.r i)
  pop-push push pop i m c v room top no_lr no_pc same at =
      let rlist = bit_and push 0xFF in
      let (back, pointer, others) = popped push pop m c v room top no_lr no_pc same at in
      elim (Bool-cases (i == 13)) [
        | inl e ↦ let here : i ≡ 13 = ground arith in rw here pointer
        | inr e ↦
            let ne : i ≢ 13 = ground arith in
            elim (Bool-cases (ltb i 8)) [
              | inr high ↦ rw (e, high) (others i ne (inl (ground arith)))
              | inl low ↦ elim (Bool-cases (in_list rlist i)) [
                | inl t ↦ rw (e, low, t) (back i (ground arith) t)
                | inr f ↦ rw (e, low, f) (others i ne (inr f))
              ]
            ]
      ]
