-- ===== src/Nvic/Tests.antt =====
-- The theorems on the interrupt controller at concrete states.
use picoemu.Base.{
  ℕ, ◌^◌, ◌≤◌, ◌<◌, ◌≡◌, refl, true, false, some, ◌==◌, if◌then◌else◌, ◌+◌, ◌*◌, bit_and, arith,
}
use picoemu.Nvic.State.{NvicState, Ppb, nvic_zero, systick_zero, nvic_bit_test, on_nvic, nvic_reset}
use picoemu.Nvic.Irq.{
  scan_bits, consider, nvic_get_pending_irq, nvic_enable_irq, nvic_disable_irq, nvic_clear_pending,
  nvic_set_priority, nvic_set_pending, nvic_signal_irq, nvic_rp2350_irq,
}
use picoemu.Nvic.Systick.{Ticked, pend, fire, systick_loop, tick_state}
use picoemu.Nvic.Ticking.{cycles, tick_state-cycles}
use picoemu.Nvic.Choice.{IsIrqState}
use picoemu.Nvic.Pending.{is_requested, nvic_get_pending_irq-rank}
use picoemu.Nvic.Writes.{nvic_write_register}
use picoemu.Nvic.Kept.{IsPpb, operations-IsPpb}
use picoemu.Nvic.Protection.{mpu_hit}
use picoemu.Nvic.Lines.{nvic_rp2350_irq-distinct}
use picoemu.Nvic.Regions.{IsLastHit, mpu_hit-IsLastHit}
use picoemu.Base.Scan.{ctz}

-- The world is 1 when the cores were woken.
abbrev woken : ℕ → ℕ
woken w = 1

abbrev ticking : Ticked ℕ
ticking = (record { csr = 3; rvr = 4; cvr = 2; pending = 0; zero_fired = 0 }, 0)

tick_state-cycles_example : tick_state woken 11 ticking ≡ cycles woken 4 11 ticking
tick_state-cycles_example = tick_state-cycles woken (λ w. refl) 11 ticking refl (omega arith)

after_eleven :
    tick_state woken 11 ticking
    ≡ (record { csr = 0x10003; rvr = 4; cvr = 3; pending = 1; zero_fired = 0 }, 1)
unfolding tick_state systick_loop fire pend
after_eleven = refl

-- The interrupts 5, 20 and 33 ask for service; 20 and 33 have the higher priority.
abbrev asking : NvicState
asking = record nvic_zero {
  enable = λ i. if i == 0 then 0x00100020 else 2;
  pending = λ i. if i == 0 then 0x00100030 else 2;
  priority = λ i. if i == 5 then 0x80 else 0x40;
  priorities_nondefault = 1;
}

asking-IsIrqState : IsIrqState asking
asking-IsIrqState = record {
  enable_words = λ i. ground arith;
  pending_words = λ i. ground arith;
  flag = λ j h z. absurd (omega arith);
}

first_is_20 : nvic_get_pending_irq asking ≡ 20
unfolding nvic_get_pending_irq scan_bits consider ctz
first_is_20 = refl

nvic_get_pending_irq-rank_example :
    (nvic_get_pending_irq asking < 64)
    × (is_requested asking (nvic_get_pending_irq asking) ≡ true)
    × (bit_and (asking.priority (nvic_get_pending_irq asking)) 0xC0 * 2 ^ 32
          + nvic_get_pending_irq asking
        ≤ 0x4000000021)
unfolding nvic_bit_test
nvic_get_pending_irq-rank_example =
    nvic_get_pending_irq-rank asking asking-IsIrqState 33 (omega arith)

abbrev latency : ℕ → ℕ → ℕ
latency irq w = w

abbrev start : Ppb ℕ
start = record {
  nvic_states = λ c. asking;
  systick_states = λ c. systick_zero;
  mpu_state = record {
    ctrl = 1;
    rnr = 0;
    rbar = λ r. 0x20000000;
    rlar = λ r. if r == 5 then 0 else 0x20000FE1;
    mair = λ i. 0;
  };
  sau_state = record { ctrl = 0; rnr = 0; rbar = λ r. 0; rlar = λ r. 0 };
  last_irq_signal = 0xFFFFFFFF;
  irq_signal_count = 0;
  nvic_cpuid_value = 0x410CC601;
  active_core = 0;
  vtor = 0x10000100;
  membus_rp2350_mode = 1;
  watchdog_reboot_pending = 0;
  world = 0;
}

start-IsPpb : IsPpb start
start-IsPpb = record { core = λ c. asking-IsIrqState }

-- A write of IPR3 and the interrupt 40.
operations-IsPpb_example :
    IsPpb (nvic_write_register woken latency 0xE000E40C 0x80402000 start)
    × IsPpb (nvic_signal_irq woken latency 40 start)
    × IsPpb (nvic_set_pending woken latency 40 start)
    × IsPpb (on_nvic (nvic_clear_pending 40) start)
    × IsPpb (on_nvic (nvic_enable_irq 40) start)
    × IsPpb (on_nvic (nvic_disable_irq 40) start)
    × IsPpb (on_nvic (nvic_set_priority 40 0xFF) start)
    × IsPpb (nvic_reset start)
operations-IsPpb_example =
    operations-IsPpb woken latency 0xE000E40C 0x80402000 40 0xFF start (omega arith) start-IsPpb

-- Region 5 is off, so region 4 is the last of the first six that holds the address.
mpu_hit-IsLastHit_example : IsLastHit start.mpu_state 0x20000010 2 (some 4)
unfolding mpu_hit
mpu_hit-IsLastHit_example = mpu_hit-IsLastHit 6 start.mpu_state 0x20000010 2 (omega arith)

translated : nvic_rp2350_irq 1 13 ≡ 21
unfolding nvic_rp2350_irq
translated = refl

-- The serial ports, 20 and 21.
nvic_rp2350_irq-distinct_example :
    (nvic_rp2350_irq 1 20 < 52)
    × (false ≡ (nvic_rp2350_irq 1 20 == nvic_rp2350_irq 1 21))
    × (nvic_rp2350_irq 0 20 ≡ 20)
nvic_rp2350_irq-distinct_example = nvic_rp2350_irq-distinct 1 20 21 (omega arith) (omega arith)
