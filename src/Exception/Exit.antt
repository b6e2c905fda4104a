-- ===== src/Exception/Exit.antt =====
-- Exception return of src/cpu.c.
use picoemu.Base.{ℕ, ◌+◌, ◌-◌, ◌||◌, bit_and, true, ◌==◌, if◌then◌else◌, u32, not32, ◌>>◌}
use picoemu.Thumb.State.{update}
use picoemu.Nvic.State.{nvic_cur, on_nvic, nvic_exc_set, nvic_exc_clear}
use picoemu.Nvic.Irq.{nvic_get_exception_priority}
use picoemu.Exception.State.{
  Core, ExceptionEnv, set_iabr, clear_iabr, clear_pending, with_ipsr, vector_addr,
}
use picoemu.Exception.Entry.{preempting, unmasked}

-- The priority after the return: that of the exception below, or the lowest.
unfoldable pub return_priority : {W : Type 0} → Core W → ℕ
return_priority c =
    let prev_irq = c.exception_stack (c.exception_depth - 1) in
    if c.exception_depth == 0
    then 0xFF
    else if prev_irq == 0xFFFFFFFF
    then 0xFF
    else nvic_get_exception_priority prev_irq (nvic_cur c.ppb)

unfoldable pub tail_vector : {W : Type 0} → Core W → ℕ
tail_vector c = if unmasked c.cpu then preempting true (return_priority c) c.ppb else 0xFFFFFFFF

module _ {W : Type 0} (env : ExceptionEnv W) where
  -- The next handler is entered on the same frame.
  unfoldable pub tail_chain : ℕ → Core W → Core W
  tail_chain v c =
      let unmarked = on_nvic (nvic_exc_clear c.current_irq) (clear_iabr c.current_irq c.ppb) in
      let pended = clear_pending v unmarked in
      let marked = set_iabr v (on_nvic (nvic_exc_set v) pended) in
      let read = env.mem_read32 (vector_addr v marked) marked in
      record c {
        ppb = read.1;
        current_irq = v;
        cpu = record c.cpu {
          r = update (update c.cpu.r 15 (bit_and read.0 (not32 1))) 14 0xFFFFFFF9;
          xpsr = with_ipsr c.cpu.xpsr v;
        };
      }

  -- The eight words of the frame, from the stack pointer up.
  unfoldable pub pop_frame : Core W → Core W
  pop_frame c =
      let sp = c.cpu.r 13 in
      let at : ℕ → ℕ = λ k. u32 (sp + k) in
      let w0 = env.mem_read32 sp c.ppb in
      let w1 = env.mem_read32 (at 4) w0.1 in
      let w2 = env.mem_read32 (at 8) w1.1 in
      let w3 = env.mem_read32 (at 12) w2.1 in
      let w12 = env.mem_read32 (at 16) w3.1 in
      let lr = env.mem_read32 (at 20) w12.1 in
      let pc = env.mem_read32 (at 24) lr.1 in
      let xpsr = env.mem_read32 (at 28) pc.1 in
      let r0 = update c.cpu.r 0 w0.0 in
      let r3 = update (update (update r0 1 w1.0) 2 w2.0) 3 w3.0 in
      let r13 = update (update r3 12 w12.0) 13 (at 32) in
      record c {
        ppb = xpsr.1;
        cpu = record c.cpu {
          r = update (update r13 14 lr.0) 15 (bit_and pc.0 (not32 1));
          xpsr = xpsr.0;
        };
      }

  -- The exception below on the nesting stack is current again, with its If-Then state.
  unfoldable pub unnest : Core W → Core W
  unnest c =
      let depth = c.exception_depth - 1 in
      let it = c.it_stack depth in
      if c.exception_depth == 0 then record c { current_irq = 0xFFFFFFFF } else record c {
        exception_depth = depth;
        current_irq = c.exception_stack depth;
        cpu = record c.cpu {
          it_base = bit_and it 0xF;
          it_mask = bit_and (it >> 4) 0xF;
          it_pos = bit_and (it >> 8) 0xF;
          it_len = bit_and (it >> 12) 0xF;
        };
      }

  unfoldable pub finish : Core W → Core W
  finish c =
      let v = c.current_irq in
      let done = unnest (record c { ppb = on_nvic (nvic_exc_clear v) (clear_iabr v c.ppb) }) in
      let left = if v == 0xFFFFFFFF then c else done in
      record left { cpu = record left.cpu { faultmask = 0 } }

  unfoldable pub cpu_exception_return : ℕ → Core W → Core W
  cpu_exception_return lr_value c =
      let mode = bit_and lr_value 0x0F in
      let v = tail_vector c in
      let chained = tail_chain v c in
      let unstacked = finish (pop_frame c) in
      if (mode == 9) || ((mode == 1) || (mode == 0xD))
      then (if v == 0xFFFFFFFF then unstacked else chained)
      else c
