-- ===== src/Exception/Tests.antt =====
-- The theorems on exceptions at concrete states.
use picoemu.Base.{ℕ, ◌≡◌, refl, true, not, ◌==◌, if◌then◌else◌, arith}
use picoemu.Base.Scan.{ctz}
use picoemu.Thumb.State.{Cpu, IsWord, update}
use picoemu.Nvic.State.{NvicState, Ppb, nvic_zero, systick_zero, nvic_exc_set, nvic_bit_set}
use picoemu.Nvic.Irq.{nvic_get_pending_irq, scan_bits, consider}
use picoemu.Nvic.Choice.{IsIrqState}
use picoemu.Exception.State.{Core, ExceptionEnv, set_iabr}
use picoemu.Thumb.System.{it_set_state, it_mask_len}
use picoemu.Exception.Predication.{it_check_skip, t32_check_cond}
use picoemu.Exception.Entry.{
  cpu_exception_entry, stacked, start, nest, push_frame, late_vector, preempting,
}
use picoemu.Exception.Exit.{cpu_exception_return, tail_vector, return_priority}
use picoemu.Exception.Frame.{IsStackRam}
use picoemu.Exception.Resume.{IsPredicated, IsHandled, IsResumed, looked_up}
use picoemu.Exception.RoundTrip.{return-entry}
use picoemu.Exception.Preempt.{Beats, preempting-Beats}
use picoemu.Exception.Blocks.{block, it_blocks}

-- Memory is a word for each address.
abbrev words : ExceptionEnv (ℕ → ℕ)
words = record {
  mem_read32 = λ a p. (p.world a, p);
  mem_write32 = λ a v p. record p { world = update p.world a v };
  arm_excl_clear = λ core w. w;
  corepool_wake_cores = λ w. w;
  irq_latency_pend = λ irq w. w;
  irq_latency_enter = λ irq w. w;
  dump_arena = λ p. p;
}

words-IsStackRam : IsStackRam words 0x20000000 0x20001000
words-IsStackRam = record {
  bounded = omega arith;
  read_pure = λ a p low high. refl;
  read_self = λ a v p low high word. ground arith;
  read_other = λ a b v p low apart high. ground arith;
  profiling = λ a n p low high. refl;
}

abbrev cpu0 : Cpu
cpu0 = record {
  r = λ i. if i == 13 then 0x20000100 else if i == 15 then 0x10000202 else 6;
  xpsr = 0x61000000;
  primask = 0;
  faultmask = 0;
  control = 0;
  it_base = 8;
  it_mask = 12;
  it_pos = 1;
  it_len = 2;
  it_suppress = 0;
  m33_basepri = 0;
  pc_updated = 0;
}

cpu0-IsWord : IsWord cpu0
cpu0-IsWord = record { regs = λ i. ground arith; status = omega arith }

cpu0-IsPredicated : IsPredicated cpu0
cpu0-IsPredicated = record {
  base = omega arith;
  mask = omega arith;
  pos = omega arith;
  len = omega arith;
}

-- Interrupt 3 asks for service with the priority 0x40.
abbrev asking : NvicState
asking = record nvic_zero {
  enable = λ i. if i == 0 then 8 else 0;
  pending = λ i. if i == 0 then 8 else 0;
  priority = λ i. if i == 3 then 0x40 else 0;
  priorities_nondefault = 1;
}

asking-IsIrqState : IsIrqState asking
asking-IsIrqState = record {
  enable_words = λ i. ground arith;
  pending_words = λ i. ground arith;
  flag = λ j h z. absurd (omega arith);
}

abbrev quiet : Ppb (ℕ → ℕ)
quiet = record {
  nvic_states = λ c. nvic_zero;
  systick_states = λ c. systick_zero;
  mpu_state = record { ctrl = 0; rnr = 0; rbar = λ r. 0; rlar = λ r. 0; mair = λ i. 0 };
  sau_state = record { ctrl = 0; rnr = 0; rbar = λ r. 0; rlar = λ r. 0 };
  last_irq_signal = 0xFFFFFFFF;
  irq_signal_count = 0;
  nvic_cpuid_value = 0x410CC601;
  active_core = 0;
  vtor = 0x10000100;
  membus_rp2350_mode = 0;
  watchdog_reboot_pending = 0;
  world = λ a. if a == 0x10000140 then 0x10000301 else 0;
}

abbrev running : Core (ℕ → ℕ)
running = record {
  cpu = cpu0;
  ppb = quiet;
  current_irq = 0xFFFFFFFF;
  exception_stack = λ i. 0;
  it_stack = λ i. 0;
  exception_depth = 0;
  is_halted = 0;
}

-- The handler of interrupt 0 changes every register but the stack pointer.
abbrev handler : Core (ℕ → ℕ)
handler =
    let e = cpu_exception_entry words 16 running in
    record e { cpu = record e.cpu { r = λ i. if i == 13 then 0x200000E0 else 9 } }

handler-IsHandled :
    IsHandled words 0x200000E0 0x20000100 (cpu_exception_entry words 16 running) handler
unfolding cpu_exception_entry stacked start nest push_frame late_vector preempting
    nvic_get_pending_irq nvic_exc_set set_iabr nvic_bit_set
handler-IsHandled = record {
  sp = refl;
  vector = refl;
  depth = refl;
  irqs = λ i. refl;
  its = λ i. refl;
  frame = λ a low high. refl;
}

return-entry_example :
    IsResumed words running handler (cpu_exception_return words 0xFFFFFFF9 handler)
unfolding cpu_exception_entry stacked start nest push_frame late_vector preempting
    nvic_get_pending_irq nvic_exc_set set_iabr nvic_bit_set tail_vector return_priority looked_up
return-entry_example =
    return-entry words 0x20000000 0x20001000 words-IsStackRam 16 0xFFFFFFF9 running handler
      cpu0-IsWord cpu0-IsPredicated (omega arith) (omega arith) (omega arith) (omega arith) refl
      refl handler-IsHandled refl refl

-- Interrupt 3 beats the priority 0x80.
preempting-Beats_example :
    Beats 0x80
      (record quiet { nvic_states = λ c. asking })
      (preempting true 0x80 (record quiet { nvic_states = λ c. asking }))
preempting-Beats_example =
    preempting-Beats 0x80 (record quiet { nvic_states = λ c. asking }) true asking-IsIrqState

it_beats : preempting true 0x80 (record quiet { nvic_states = λ c. asking }) ≡ 19
unfolding preempting nvic_get_pending_irq scan_bits consider ctz
it_beats = refl

-- ITE HI and its second instruction, which runs on LS.
it_blocks_example :
    (it_set_state 0xBF8C cpu0 ≡ block 0x8C 0 cpu0)
    × (it_check_skip 0x2001 (block 0x8C 1 cpu0)
        ≡ (not (t32_check_cond 9 cpu0.xpsr), record (block 0x8C 1 cpu0) { it_pos = 0; it_len = 0 }))
unfolding it_mask_len
it_blocks_example = it_blocks 0xBF8C 0x2001 1 cpu0 refl (omega arith)
