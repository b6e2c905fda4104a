-- ===== src/Exception/Resume.antt =====
-- Exception entry and then return of src/cpu.c: what the interrupted code finds again.
use native.Mathlib.Nat.{div-eq_of_lt, mod-eq_of_lt}
use picoemu.Base.{
  ℕ, ◌+◌, ◌-◌, ◌*◌, ◌/◌, ◌^◌, ◌≤◌, ◌<◌, ◌≡◌, refl, ◌∙◌, inl, inr, bit_and, bit_or, true, false,
  ◌&&◌, ◌||◌, Bool-cases, leb, ltb, ◌==◌, if◌then◌else◌, get_or, arith,
}
use picoemu.Base.Bits.{bit_or_high, zero-bit_or}
use picoemu.Thumb.State.{Cpu, IsWord}
use picoemu.Exception.State.{Core, ExceptionEnv, vector_addr}
use picoemu.Exception.Entry.{packed_it, nest, stacked, start, late_vector, cpu_exception_entry}
use picoemu.Exception.Exit.{tail_vector, pop_frame, finish, cpu_exception_return}
use picoemu.Exception.Frame.{IsStackRam, frame_words, push_frame-sp, frame_word}
use picoemu.Exception.Unstack.{popped}

-- The If-Then state fits the four bits that its fields are saved in.
pub record IsPredicated (c : Cpu) : Type 0 where
  pub base : c.it_base < 16
  pub mask : c.it_mask < 16
  pub pos : c.it_pos < 16
  pub len : c.it_len < 16

or_field : (k x m : ℕ) → x < 2 ^ k → bit_or x (m * 2 ^ k) ≡ m * 2 ^ k + x
or_field k x m h =
    let none_above : x / 2 ^ k ≡ 0 = div-eq_of_lt h in
    bit_or_high k x m ∙ rw (none_above, zero-bit_or m, mod-eq_of_lt h) refl

pub packed :
    (c : Cpu)
    → IsPredicated c
    → packed_it c ≡ c.it_len * 4096 + (c.it_pos * 256 + (c.it_mask * 16 + c.it_base))
packed c small =
    rw
      (
        or_field 4 c.it_base c.it_mask small.base,
        or_field 8 (c.it_mask * 16 + c.it_base) c.it_pos (omega (arith, small.base, small.mask)),
        or_field 12 (c.it_pos * 256 + (c.it_mask * 16 + c.it_base)) c.it_len
            (omega (arith, small.base, small.mask, small.pos)),
      )
      refl

module _ {W : Type 0} (env : ExceptionEnv W) where
  -- A state in which the handler returns: the stack pointer, the nesting stacks and the frame are as
  -- entry left them. All else is free.
  pub record IsHandled (low top : ℕ) (e q : Core W) : Type 0 where
    pub sp : q.cpu.r 13 ≡ e.cpu.r 13
    pub vector : q.current_irq ≡ e.current_irq
    pub depth : q.exception_depth ≡ e.exception_depth
    pub irqs : (i : ℕ) → q.exception_stack i ≡ e.exception_stack i
    pub its : (i : ℕ) → q.it_stack i ≡ e.it_stack i
    pub frame :
        (a : ℕ) → low ≤ a → a + 4 ≤ top → (env.mem_read32 a q.ppb).0 ≡ (env.mem_read32 a e.ppb).0

  -- What the interrupted code finds.
  pub record IsResumed (c q out : Core W) : Type 0 where
    pub regs : (i : ℕ) → out.cpu.r i ≡ (if i == 13 then c.cpu.r 13 else popped c.cpu q.cpu i)
    pub status : out.cpu.xpsr ≡ c.cpu.xpsr
    pub vector : out.current_irq ≡ c.current_irq
    pub depth : out.exception_depth ≡ c.exception_depth
    pub it_base : out.cpu.it_base ≡ c.cpu.it_base
    pub it_mask : out.cpu.it_mask ≡ c.cpu.it_mask
    pub it_pos : out.cpu.it_pos ≡ c.cpu.it_pos
    pub it_len : out.cpu.it_len ≡ c.cpu.it_len

  -- Entry without a lockup and without a late arrival.
  unfoldable pub looked_up : ℕ → Core W → Core W
  looked_up v c = record c { ppb = (env.mem_read32 (vector_addr v c.ppb) c.ppb).1 }

  pub entry :
      (v : ℕ) (c : Core W)
      → ((v == 3) && (c.current_irq == 3)) ≡ false
      → late_vector v (stacked env v (looked_up v c)) ≡ 0xFFFFFFFF
      → cpu_exception_entry env v c
        ≡ start env v (env.mem_read32 (vector_addr v c.ppb) c.ppb).0 (stacked env v (looked_up v c))
  unfolding cpu_exception_entry looked_up
  entry v c alive early = rw (alive, early) refl

  -- Return without a tail chain.
  pub return :
      (lr : ℕ) (q : Core W)
      → ((bit_and lr 0x0F == 9) || ((bit_and lr 0x0F == 1) || (bit_and lr 0x0F == 0xD))) ≡ true
      → tail_vector q ≡ 0xFFFFFFFF
      → cpu_exception_return env lr q ≡ finish env (pop_frame env q)
  unfolding cpu_exception_return
  return lr q mode last = rw (mode, last) refl

  module _ (lo hi : ℕ) (ram : IsStackRam env lo hi) (v : ℕ) (c : Core W) where
    abbrev pub inner : Core W
    inner = stacked env v (looked_up v c)

    unfoldable pub entered : ℕ → Core W
    entered h = start env v h inner

    module _ (word : IsWord c.cpu) (room : lo + 32 ≤ c.cpu.r 13) (top : c.cpu.r 13 ≤ hi) where
      pub entered-sp : (h : ℕ) → (entered h).cpu.r 13 ≡ c.cpu.r 13 - 32
      unfolding entered start stacked looked_up
      entered-sp h = push_frame-sp env lo hi ram c.cpu _ word room top

      pub entered-frame :
          (h k : ℕ)
          → k < 8
          → (env.mem_read32 (c.cpu.r 13 - 4 * (k + 1)) (entered h).ppb).0
            ≡ get_or (frame_words c.cpu) k 0
      unfolding entered start stacked looked_up
      entered-frame h k inside =
          let low : lo ≤ c.cpu.r 13 - 4 * (k + 1) = omega arith in
          let high : c.cpu.r 13 - 4 * (k + 1) + 4 ≤ hi = omega arith in
          elim (Bool-cases (leb 16 v)) [
            | inl e ↦ rw e (
                ram.profiling (c.cpu.r 13 - 4 * (k + 1)) (v - 16) _ low high
                ∙ frame_word env lo hi ram c.cpu _ word room top k inside)
            | inr e ↦ rw e (frame_word env lo hi ram c.cpu _ word room top k inside)
          ]

    pub entered-vector : (h : ℕ) → (entered h).current_irq ≡ v
    unfolding entered start stacked
    entered-vector h = refl

    module _ (shallow : c.exception_depth < 8) where
      pub entered-depth : (h : ℕ) → (entered h).exception_depth ≡ c.exception_depth + 1
      unfolding entered start stacked looked_up nest
      entered-depth h = let e : ltb c.exception_depth 8 ≡ true = ground arith in rw e refl

      pub entered-irqs : (h : ℕ) → (entered h).exception_stack c.exception_depth ≡ c.current_irq
      unfolding entered start stacked looked_up nest
      entered-irqs h = let e : ltb c.exception_depth 8 ≡ true = ground arith in rw e (ground arith)

      pub entered-its : (h : ℕ) → (entered h).it_stack c.exception_depth ≡ packed_it c.cpu
      unfolding entered start stacked looked_up nest
      entered-its h = let e : ltb c.exception_depth 8 ≡ true = ground arith in rw e (ground arith)
