-- ===== src/Exception/RoundTrip.antt =====
-- The round trip through exception entry and return of src/cpu.c.
use picoemu.Base.{
  ℕ, ◌+◌, ◌-◌, ◌*◌, ◌/◌, ◌^◌, ◌≤◌, ◌<◌, ◌≡◌, refl, ap, ◌∙◌, bit_and, true, false, ◌&&◌, ◌||◌, ◌==◌,
  u32, get_or, arith,
}
use picoemu.Base.Bits.{bit_and_mask}
use picoemu.Thumb.State.{Cpu, IsWord}
use picoemu.Exception.State.{Core, ExceptionEnv, vector_addr}
use picoemu.Exception.Entry.{packed_it, stacked, late_vector, cpu_exception_entry}
use picoemu.Exception.Exit.{tail_vector, pop_frame, unnest, finish, cpu_exception_return}
use picoemu.Exception.Frame.{IsStackRam, frame_words}
use picoemu.Exception.Unstack.{Framed, pop_frame-r, pop_frame-xpsr}
use picoemu.Exception.Resume.{
  IsPredicated, packed, IsHandled, IsResumed, looked_up, entry, return, entered, entered-sp,
  entered-frame, entered-vector, entered-depth, entered-irqs, entered-its,
}

module _ {W : Type 0} (env : ExceptionEnv W) where
  -- The end of a return from a vector that lies on the nesting stack.
  module _ (c : Core W) (v : (c.current_irq == 0xFFFFFFFF) ≡ false)
      (below : (c.exception_depth == 0) ≡ false) where
    finish-r : (i : ℕ) → (finish env c).cpu.r i ≡ c.cpu.r i
    unfolding finish unnest
    finish-r i = rw (v, below) refl

    finish-xpsr : (finish env c).cpu.xpsr ≡ c.cpu.xpsr
    unfolding finish unnest
    finish-xpsr = rw (v, below) refl

    finish-vector : (finish env c).current_irq ≡ c.exception_stack (c.exception_depth - 1)
    unfolding finish unnest
    finish-vector = rw (v, below) refl

    finish-depth : (finish env c).exception_depth ≡ c.exception_depth - 1
    unfolding finish unnest
    finish-depth = rw (v, below) refl

    module _ (old : Cpu) (small : IsPredicated old)
        (saved : c.it_stack (c.exception_depth - 1) ≡ packed_it old) where
      finish-it_base : (finish env c).cpu.it_base ≡ old.it_base
      unfolding finish unnest
      finish-it_base =
          rw
            (
              v,
              below,
              saved,
              packed old small,
              bit_and_mask 4
                  (old.it_len * 4096 + (old.it_pos * 256 + (old.it_mask * 16 + old.it_base))),
            )
            (omega (arith, small.base))

      finish-it_mask : (finish env c).cpu.it_mask ≡ old.it_mask
      unfolding finish unnest
      finish-it_mask =
          let it = old.it_len * 4096 + (old.it_pos * 256 + (old.it_mask * 16 + old.it_base)) in
          rw (v, below, saved, packed old small, bit_and_mask 4 (it / 2 ^ 4))
            (omega (arith, small.base, small.mask))

      finish-it_pos : (finish env c).cpu.it_pos ≡ old.it_pos
      unfolding finish unnest
      finish-it_pos =
          let it = old.it_len * 4096 + (old.it_pos * 256 + (old.it_mask * 16 + old.it_base)) in
          rw (v, below, saved, packed old small, bit_and_mask 4 (it / 2 ^ 8))
            (omega (arith, small.base, small.mask, small.pos))

      finish-it_len : (finish env c).cpu.it_len ≡ old.it_len
      unfolding finish unnest
      finish-it_len =
          let it = old.it_len * 4096 + (old.it_pos * 256 + (old.it_mask * 16 + old.it_base)) in
          rw (v, below, saved, packed old small, bit_and_mask 4 (it / 2 ^ 12))
            (omega (arith, small.base, small.mask, small.pos, small.len))

  -- The pop leaves the nesting stack.
  pop_frame-vector : (q : Core W) → (pop_frame env q).current_irq ≡ q.current_irq
  unfolding pop_frame
  pop_frame-vector q = refl

  pop_frame-depth : (q : Core W) → (pop_frame env q).exception_depth ≡ q.exception_depth
  unfolding pop_frame
  pop_frame-depth q = refl

  pop_frame-irqs : (q : Core W) (i : ℕ) → (pop_frame env q).exception_stack i ≡ q.exception_stack i
  unfolding pop_frame
  pop_frame-irqs q i = refl

  pop_frame-its : (q : Core W) (i : ℕ) → (pop_frame env q).it_stack i ≡ q.it_stack i
  unfolding pop_frame
  pop_frame-its q i = refl

  module _ (lo hi : ℕ) (ram : IsStackRam env lo hi) (v h : ℕ) (c q : Core W) where
    module _ (word : IsWord c.cpu) (room : lo + 32 ≤ c.cpu.r 13) (top : c.cpu.r 13 ≤ hi) where
      module _
          (handled : IsHandled env
            (c.cpu.r 13 - 32)
            (c.cpu.r 13)
            (entered env lo hi ram v c h)
            q) where
        handled-sp : q.cpu.r 13 ≡ c.cpu.r 13 - 32
        handled-sp = handled.sp ∙ entered-sp env lo hi ram v c word room top h

        word_at :
            (k a : ℕ)
            → k < 8
            → a ≡ c.cpu.r 13 - 4 * (k + 1)
            → (env.mem_read32 a q.ppb).0 ≡ get_or (frame_words c.cpu) k 0
        word_at k a inside e = rw e (
            handled.frame (c.cpu.r 13 - 4 * (k + 1)) (omega arith) (omega arith)
            ∙ entered-frame env lo hi ram v c word room top h k inside)

        handled-Framed : Framed env c.cpu (q.cpu.r 13) q.ppb
        handled-Framed =
            let at : (j k : ℕ)
                → j + 4 * (k + 1) ≡ 32
                → u32 (q.cpu.r 13 + j) ≡ c.cpu.r 13 - 4 * (k + 1) =
              λ j k e. omega (arith, handled-sp, ram.bounded) in
            record {
              r0 = word_at 7 (q.cpu.r 13) (omega arith) (omega (arith, handled-sp));
              r1 = word_at 6 (u32 (q.cpu.r 13 + 4)) (omega arith) (at 4 6 refl);
              r2 = word_at 5 (u32 (q.cpu.r 13 + 8)) (omega arith) (at 8 5 refl);
              r3 = word_at 4 (u32 (q.cpu.r 13 + 12)) (omega arith) (at 12 4 refl);
              r12 = word_at 3 (u32 (q.cpu.r 13 + 16)) (omega arith) (at 16 3 refl);
              lr = word_at 2 (u32 (q.cpu.r 13 + 20)) (omega arith) (at 20 2 refl);
              pc = word_at 1 (u32 (q.cpu.r 13 + 24)) (omega arith) (at 24 1 refl);
              status = word_at 0 (u32 (q.cpu.r 13 + 28)) (omega arith) (at 28 0 refl);
            }

        resumed :
            IsPredicated c.cpu
            → c.exception_depth < 8
            → v < 0xFFFFFFFF
            → IsResumed env c q (finish env (pop_frame env q))
        resumed small shallow vector =
            let p = pop_frame env q in
            let here : p.current_irq ≡ v =
              pop_frame-vector q ∙ handled.vector ∙ entered-vector env lo hi ram v c h in
            let deep : p.exception_depth ≡ c.exception_depth + 1 =
              pop_frame-depth q ∙ handled.depth ∙ entered-depth env lo hi ram v c shallow h in
            let real : (p.current_irq == 0xFFFFFFFF) ≡ false = ground (arith, here) in
            let below : (p.exception_depth == 0) ≡ false = ground (arith, deep) in
            let one_less : p.exception_depth - 1 ≡ c.exception_depth = omega (arith, deep) in
            let irq : p.exception_stack (p.exception_depth - 1) ≡ c.current_irq =
              ap (λ (t : ℕ). p.exception_stack t) one_less
              ∙ pop_frame-irqs q c.exception_depth
              ∙ handled.irqs c.exception_depth
              ∙ entered-irqs env lo hi ram v c shallow h in
            let it : p.it_stack (p.exception_depth - 1) ≡ packed_it c.cpu =
              ap (λ (t : ℕ). p.it_stack t) one_less
              ∙ pop_frame-its q c.exception_depth
              ∙ handled.its c.exception_depth
              ∙ entered-its env lo hi ram v c shallow h in
            let low : lo ≤ q.cpu.r 13 = omega (arith, handled-sp) in
            let high : q.cpu.r 13 + 32 ≤ hi = omega (arith, handled-sp) in
            record {
              regs = λ i.
                  finish-r p real below i
                  ∙ pop_frame-r env lo hi ram c.cpu q low high i handled-Framed
                  ∙ ground (arith, handled-sp);
              status =
                  finish-xpsr p real below
                  ∙ pop_frame-xpsr env lo hi ram c.cpu q low high handled-Framed;
              vector = finish-vector p real below ∙ irq;
              depth = finish-depth p real below ∙ one_less;
              it_base = finish-it_base p real below c.cpu small it;
              it_mask = finish-it_mask p real below c.cpu small it;
              it_pos = finish-it_pos p real below c.cpu small it;
              it_len = finish-it_len p real below c.cpu small it;
            }

  -- Entry of a vector without a lockup and without a late arrival, at less than the full nesting depth
  -- and with 32 bytes of memory below the stack pointer, then return without a tail chain from a state
  -- whose stack pointer, nesting stacks and frame are as entry left them: the interrupted code has its
  -- registers 0 to 3, 12, 13, 14 and its status again, its program counter less the lowest bit, its
  -- exception number, its nesting depth and its If-Then state; the other registers are the handler's.
  pub return-entry :
      (lo hi : ℕ)
      → IsStackRam env lo hi
      → (v lr : ℕ) (c q : Core W) → IsWord c.cpu
      → IsPredicated c.cpu
      → lo + 32 ≤ c.cpu.r 13
      → c.cpu.r 13 ≤ hi
      → c.exception_depth < 8
      → v < 0xFFFFFFFF
      → ((v == 3) && (c.current_irq == 3)) ≡ false
      → late_vector v (stacked env v (looked_up env v c)) ≡ 0xFFFFFFFF
      → IsHandled env (c.cpu.r 13 - 32) (c.cpu.r 13) (cpu_exception_entry env v c) q
      → ((bit_and lr 0x0F == 9) || ((bit_and lr 0x0F == 1) || (bit_and lr 0x0F == 0xD))) ≡ true
      → tail_vector q ≡ 0xFFFFFFFF
      → IsResumed env c q (cpu_exception_return env lr q)
  unfolding entered
  return-entry lo hi ram v lr c q word small room top shallow vector alive early handled mode last =
      let h = (env.mem_read32 (vector_addr v c.ppb) c.ppb).0 in
      let entered_state = rw (entry env v c alive early) at handled in
      rw (return env lr q mode last)
        (resumed lo hi ram v h c q word room top entered_state small shallow vector)
