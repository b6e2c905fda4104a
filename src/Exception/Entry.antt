-- ===== src/Exception/Entry.antt =====
-- Exception entry of src/cpu.c.
use picoemu.Base.{
  ℕ, ◌+◌, ◌-◌, ◌&&◌, not, bit_and, bit_or, Bool, false, leb, ltb, ◌==◌, if◌then◌else◌, sub32, not32,
  ◌<<◌,
}
use picoemu.Thumb.State.{Cpu, update}
use picoemu.Nvic.State.{Ppb, nvic_cur, systick_cur, on_nvic, nvic_exc_set, nvic_exc_clear}
use picoemu.Nvic.Irq.{nvic_get_exception_priority, nvic_get_pending_irq}
use picoemu.Exception.State.{
  Core, ExceptionEnv, on_ppb, set_iabr, clear_iabr, clear_pending, set_pending_again, with_ipsr,
  vector_addr,
}
use picoemu.Exception.Predication.{it_clear}

-- The saved If-Then state of the interrupted code.
abbrev pub packed_it : Cpu → ℕ
packed_it c = bit_or (bit_or (bit_or c.it_base (c.it_mask << 4)) (c.it_pos << 8)) (c.it_len << 12)

-- The previous exception goes on the nesting stack, of MAX_EXCEPTION_DEPTH = 8 entries.
unfoldable pub nest : {W : Type 0} → Core W → Core W
nest c =
    if ltb c.exception_depth 8
    then record c {
      exception_stack = update c.exception_stack c.exception_depth c.current_irq;
      it_stack = update c.it_stack c.exception_depth (packed_it c.cpu);
      exception_depth = c.exception_depth + 1;
    }
    else c

-- A higher-priority exception that is pending, or 0xFFFFFFFF; `limit` is the priority to beat.
unfoldable pub preempting : {W : Type 0} → Bool → ℕ → Ppb W → ℕ
preempting with_pendsv limit p =
    let ns = nvic_cur p in
    let pending_irq = nvic_get_pending_irq ns in
    let by_irq =
      if not (pending_irq == 0xFFFFFFFF) && ltb (bit_and (ns.priority pending_irq) 0xC0) limit
      then pending_irq + 16
      else 0xFFFFFFFF in
    let by_systick =
      if (by_irq == 0xFFFFFFFF) && not ((systick_cur p).pending == 0)
      then (if ltb (nvic_get_exception_priority 15 ns) limit then 15 else by_irq)
      else by_irq in
    if with_pendsv && ((by_systick == 0xFFFFFFFF) && not (ns.pendsv_pending == 0))
    then (if ltb (nvic_get_exception_priority 14 ns) limit then 14 else by_systick)
    else by_systick

-- `!cpu.primask && !cpu.faultmask`
abbrev pub unmasked : Cpu → Bool
unmasked c = (c.primask == 0) && (c.faultmask == 0)

-- A late arrival must beat the exception that was entered.
unfoldable pub late_vector : {W : Type 0} → ℕ → Core W → ℕ
late_vector v c =
    if unmasked c.cpu
    then preempting false (nvic_get_exception_priority v (nvic_cur c.ppb)) c.ppb
    else 0xFFFFFFFF

module _ {W : Type 0} (env : ExceptionEnv W) where
  -- `sp -= 4; mem_write32(sp, value)`
  abbrev push_below : ℕ → ℕ × Ppb W → ℕ × Ppb W
  push_below value s = (sub32 s.0 4, env.mem_write32 (sub32 s.0 4) value s.1)

  unfoldable pub push_frame : Cpu → Ppb W → ℕ × Ppb W
  push_frame c p =
      let f1 = push_below c.xpsr (c.r 13, p) in
      let f2 = push_below (c.r 15) f1 in
      let f3 = push_below (c.r 14) f2 in
      let f4 = push_below (c.r 12) f3 in
      let f5 = push_below (c.r 3) f4 in
      let f6 = push_below (c.r 2) f5 in let f7 = push_below (c.r 1) f6 in push_below (c.r 0) f7

  -- A hard fault while one is handled halts the core.
  unfoldable pub lockup : Core W → Core W
  lockup c = record c {
    is_halted = 1;
    ppb = env.dump_arena c.ppb;
    cpu = record c.cpu { r = update c.cpu.r 15 0xFFFFFFFF };
  }

  -- The active bits, the nesting stack and the frame.
  unfoldable pub stacked : ℕ → Core W → Core W
  stacked v c =
      let marked = on_ppb (on_nvic (nvic_exc_set v)) c in
      let nested = nest marked in
      let p = nested.ppb in
      let cleared = set_iabr v (record p { world = env.arm_excl_clear p.active_core p.world }) in
      let frame = push_frame c.cpu cleared in
      let fresh = it_clear c.cpu in
      record nested {
        ppb = frame.1;
        current_irq = v;
        cpu = record fresh { r = update c.cpu.r 13 frame.0; xpsr = with_ipsr c.cpu.xpsr v };
      }

  -- A late arrival takes the place of the exception that was entered.
  unfoldable pub late : ℕ → ℕ → Core W → ℕ × Core W
  late v late_vector c =
      let unmarked = clear_iabr v (on_nvic (nvic_exc_clear v) c.ppb) in
      let pended = clear_pending late_vector (set_pending_again env v unmarked) in
      let marked = set_iabr late_vector (on_nvic (nvic_exc_set late_vector) pended) in
      let read = env.mem_read32 (vector_addr late_vector marked) marked in
      (
        read.0,
        record c {
          ppb = read.1;
          current_irq = late_vector;
          cpu = record c.cpu { xpsr = with_ipsr c.cpu.xpsr late_vector };
        },
      )

  -- The handler's address, and the profiling of external interrupts.
  unfoldable pub start : ℕ → ℕ → Core W → Core W
  start v handler_addr c =
      let regs = update (update c.cpu.r 15 (bit_and handler_addr (not32 1))) 14 0xFFFFFFF9 in
      let p = c.ppb in
      record c {
        cpu = record c.cpu { r = regs };
        ppb = if leb 16 v then record p { world = env.irq_latency_enter (v - 16) p.world } else p;
      }

  unfoldable pub cpu_exception_entry : ℕ → Core W → Core W
  cpu_exception_entry v c =
      let read = env.mem_read32 (vector_addr v c.ppb) c.ppb in
      let looked_up = record c { ppb = read.1 } in
      let s = stacked v looked_up in
      let arrived = late_vector v s in
      let switched = late v arrived s in
      if (v == 3) && (c.current_irq == 3)
      then lockup looked_up
      else if arrived == 0xFFFFFFFF
      then start v read.0 s
      else start arrived switched.0 switched.1
