-- ===== src/Uart/Tests.antt =====
-- Runs of src/uart.c, and the properties at concrete inputs.
use picoemu.Base.{ℕ, ◌+◌, ◌≡◌, refl, true, false, some, none, List, [], ◌∷◌, arith}
use picoemu.Uart.Ports.{Uarts, uart_reset_instance, uart_match}
use picoemu.Uart.Rings.{HoldsBytes, ring}
use picoemu.Uart.Queue.{
  PortOperation, arrive, read, write, tick, port_queue_run, uart_run, port_queue_step,
  uart_run-port_queue_run,
}

rp2350_ports : uart_match true 0x40071018 ≡ some 0
unfolding uart_match
rp2350_ports = refl

rp2040_ports : uart_match false 0x40071018 ≡ none
unfolding uart_match
rp2040_ports = refl

-- The world counts the interrupts and ignores what is sent.
abbrev reset : Uarts ℕ
reset = record { uart_state = λ j. uart_reset_instance; world = 0 }

reset-HoldsBytes : HoldsBytes (ring uart_reset_instance) []
reset-HoldsBytes = record {
  size = refl;
  room = omega arith;
  start = omega arith;
  end = refl;
  slots = λ i lt. absurd (omega arith);
}

abbrev session : List PortOperation
session =
    read 0 0x018
    ∷ arrive 0 72
    ∷ arrive 0 105
    ∷ write 0 0x030 0x301
    ∷ write 0 0x000 10
    ∷ tick
    ∷ read 0 0x000
    ∷ arrive 1 33
    ∷ arrive 2 34
    ∷ read 0 0x000
    ∷ read 0 0x000
    ∷ read 1 0x018
    ∷ []

uart_run-port_queue_run_example :
    uart_run (λ irq w. w + 1) (λ n ch w. w) session reset
    ≡ some 0x90
      ∷ some 1
      ∷ some 1
      ∷ none
      ∷ none
      ∷ none
      ∷ some 72
      ∷ some 1
      ∷ some 0
      ∷ some 105
      ∷ some 0
      ∷ some 0x80
      ∷ []
unfolding port_queue_run port_queue_step
uart_run-port_queue_run_example =
    uart_run-port_queue_run (λ irq w. w + 1) (λ n ch w. w) session reset (λ j. [])
      (λ j. reset-HoldsBytes)
