-- ===== src/Thumb/Returns.antt =====
-- PUSH with the link register and POP with the program counter of src/instructions.c: the frame of a
-- procedure.
use picoemu.Base.{
  ℕ, ◌+◌, ◌-◌, ◌*◌, ◌/◌, ◌≤◌, ◌<◌, ◌≡◌, refl, ap, ◌∙◌, ◌⊎◌, inl, inr, bit_and, Bool-cases, true,
  false, ◌&&◌, ◌||◌, ltb, ◌==◌, u32, sub32, not32, if◌then◌else◌, arith,
}
use picoemu.Thumb.State.{Cpu, set_reg, Machine, Env, on_cpu, IsWord}
use picoemu.Thumb.Flags.{bits}
use picoemu.Thumb.Block.{
  in_list, is_magic, load_loop, push_loop, push_word, pop_pc, instr_push, instr_pop,
}
use picoemu.Thumb.Ram.{IsRam}
use picoemu.Thumb.Pushed.{push_loop-Pushed}
use picoemu.Thumb.Calls.{clear_low}
use picoemu.Thumb.Stack.{loops-Restored}

module _ {W : Type 0} (env : Env W) (lo hi : ℕ) (ram : IsRam env lo hi) where
  push_lr :
      (push : ℕ) (m : Machine W)
      → bits push 8 0x1 ≡ 1
      → let low = sub32 (m.cpu.r 13) 4 in
        let out = push_loop env 8 (bit_and push 0xFF) low (push_word env low (m.cpu.r 14) m) in
        instr_push env push m ≡ on_cpu (set_reg 13 out.0) out.1
  unfolding instr_push
  push_lr push m with_lr = rw with_lr

  pop_to_pc :
      (pop rlist : ℕ) (m : Machine W)
      → bits pop 8 0x1 ≡ 1
      → bit_and pop 0xFF ≡ rlist
      → let out = load_loop env 8 0 rlist (m.cpu.r 13) m in
        instr_pop env pop m ≡ pop_pc env out.0 out.1
  unfolding instr_pop
  pop_to_pc pop rlist m with_pc same = rw (with_pc, same)

  -- The end of POP where no exception return is asked for.
  pop_pc-r :
      (sp value : ℕ) (m : Machine W)
      → (env.mem_read32 sp m.world).0 ≡ value
      → is_magic value ≡ false
      → (i : ℕ)
      → (pop_pc env sp m).cpu.r i
        ≡ (set_reg 13 (u32 (sp + 4)) (set_reg 15 (bit_and value (not32 1)) m.cpu)).r i
  unfolding pop_pc
  pop_pc-r sp value m read plain i = rw (read, plain)

  set_two :
      (sp target i : ℕ) (c : Cpu)
      → (set_reg 13 sp (set_reg 15 target c)).r i
        ≡ (if i == 15 then target else if i == 13 then sp else c.r i)
  set_two sp target i c = ground arith

  -- A procedure that begins with PUSH of a register list and LR, with 36 bytes of memory below the
  -- stack pointer, and ends with POP of the same list and PC, from a state of 32-bit words in which LR
  -- is no exception return value: whatever register file stands before the POP, if its stack pointer
  -- is where PUSH left it and the memory is as PUSH left it, the program counter is LR without its
  -- lowest bit, the listed registers and the stack pointer are those of the caller, and no other
  -- register changes at the POP.
  pub pop-push_return :
      (push pop i : ℕ) (m : Machine W) (c : Cpu)
      → IsWord m.cpu
      → lo + 36 ≤ m.cpu.r 13
      → m.cpu.r 13 ≤ hi
      → bits push 8 0x1 ≡ 1
      → bits pop 8 0x1 ≡ 1
      → bit_and pop 0xFF ≡ bit_and push 0xFF
      → is_magic (m.cpu.r 14) ≡ false
      → c.r 13 ≡ (instr_push env push m).cpu.r 13
      → let listed = ltb i 8 && in_list (bit_and push 0xFF) i in
        (instr_pop env pop (record (instr_push env push m) { cpu = c })).cpu.r i
        ≡ (if i == 15 then m.cpu.r 14 / 2 * 2 else if listed || (i == 13) then m.cpu.r i else c.r i)
  pop-push_return push pop i m c v room top with_lr with_pc same plain at =
      let rlist = bit_and push 0xFF in
      let sp = m.cpu.r 13 in
      let lr = m.cpu.r 14 in
      let bounded = ram.bounded in
      let low = sub32 sp 4 in
      let below : low ≡ sp - 4 = omega arith in
      let begun = push_word env low lr m in
      let pushed = push_lr push m with_lr in
      let start : c.r 13 ≡ (push_loop env 8 rlist low begun).0 =
        at ∙ ap (λ (n : Machine W). n.cpu.r 13) pushed in
      let done =
        loops-Restored env lo hi ram rlist low (c.r 13) begun c v (omega arith) (omega arith)
          start in
      let down = push_loop-Pushed env lo hi rlist ram 8 low begun v (omega arith) (omega arith) in
      let m1 = (push_loop env 8 rlist low begun).1 in
      let out = load_loop env 8 0 rlist (c.r 13) (record m1 { cpu = c }) in
      let slot : (env.mem_read32 low m1.world).0 ≡ lr =
        down.above low (omega arith) (omega arith)
        ∙ ram.read_self low lr m.world (omega arith) (omega arith) (v.regs 14) in
      let read : (env.mem_read32 out.0 out.1.world).0 ≡ lr =
        rw (done.pointer, done.same_world) slot in
      let popped : instr_pop env pop (record (instr_push env push m) { cpu = c })
          ≡ pop_pc env out.0 out.1 =
        ap (λ (n : Machine W). instr_pop env pop (record n { cpu = c })) pushed
        ∙ pop_to_pc pop rlist (record m1 { cpu = c }) with_pc same in
      let back : u32 (out.0 + 4) ≡ sp = omega (arith, done.pointer, v.regs 13) in
      ap (λ (n : Machine W). n.cpu.r i) popped
      ∙ pop_pc-r out.0 lr out.1 read plain i
      ∙ set_two (u32 (out.0 + 4)) (bit_and lr (not32 1)) i out.1.cpu
      ∙ rw (back, clear_low lr (v.regs 14)) (cases out.1.cpu done.listed_back done.others)
    where
      cases :
          (d : Cpu)
          → ((j : ℕ) → j < 8 → in_list (bit_and push 0xFF) j ≡ true → d.r j ≡ m.cpu.r j)
          → ((j : ℕ) → (8 ≤ j) ⊎ (in_list (bit_and push 0xFF) j ≡ false) → d.r j ≡ c.r j)
          → (if i == 15 then m.cpu.r 14 / 2 * 2 else if i == 13 then m.cpu.r 13 else d.r i) ≡ (
              if i == 15
              then m.cpu.r 14 / 2 * 2
              else if (ltb i 8 && in_list (bit_and push 0xFF) i) || (i == 13)
              then m.cpu.r i
              else c.r i)
      cases d back others = elim (Bool-cases (i == 13)) [
        | inl e ↦ let here : i ≡ 13 = ground arith in rw here refl
        | inr e ↦ elim (Bool-cases (ltb i 8)) [
          | inr high ↦ rw (e, high, others i (inl (ground arith))) refl
          | inl less ↦ elim (Bool-cases (in_list (bit_and push 0xFF) i)) [
            | inl t ↦ rw (e, less, t, back i (ground arith) t) refl
            | inr f ↦ rw (e, less, f, others i (inr f)) refl
          ]
        ]
      ]
