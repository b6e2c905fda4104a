-- ===== src/Uart/Kept.antt =====
-- Writes of registers and ticks in src/uart.c leave the receive FIFOs as they are.
use picoemu.Base.{ℕ, ◌-◌, refl, not, ◌&&◌, ltb, ◌==◌, if◌then◌else◌}
use picoemu.Thumb.Flags.{test}
use picoemu.Uart.Ports.{Uarts, tick_port, uart_tick}
use picoemu.Uart.Registers.{send_byte, write_cr, write_register, uart_write32}
use picoemu.Uart.Rings.{Keeps, self-Keeps, set_uart-Keeps, choice-Keeps, world-Keeps, then-Keeps}

module _ {W : Type 0} (nvic_signal_rp2350_irq : ℕ → W → W) (transmit : ℕ → ℕ → W → W) where
  sent-Keeps :
      (n val : ℕ) (s : Uarts W) → Keeps s (send_byte nvic_signal_rp2350_irq transmit n val s)
  unfolding send_byte
  sent-Keeps n val s =
      choice-Keeps (test (s.uart_state n).cr 0x100) s _ _
        (world-Keeps s _ _ (set_uart-Keeps n _ s refl)) (set_uart-Keeps n _ s refl)

  cr-Keeps : (n val : ℕ) (s : Uarts W) → Keeps s (write_cr nvic_signal_rp2350_irq transmit n val s)
  unfolding write_cr
  cr-Keeps n val s =
      choice-Keeps ((if test val 1 then 1 else 0) == 0) s _ _ (set_uart-Keeps n _ s refl)
        (world-Keeps s _ _ (set_uart-Keeps n _ s refl))

  write_register-Keeps :
      (n offset val : ℕ) (s : Uarts W)
      → Keeps s (write_register nvic_signal_rp2350_irq transmit n offset val s)
  unfolding write_register
  write_register-Keeps n offset val s = choice-Keeps (offset == 0x000) s _ _ (sent-Keeps n val s) (
      choice-Keeps (offset == 0x004) s _ _ (set_uart-Keeps n _ s refl) (
        choice-Keeps (offset == 0x024) s _ _ (set_uart-Keeps n _ s refl) (
          choice-Keeps (offset == 0x028) s _ _ (set_uart-Keeps n _ s refl) (
            choice-Keeps (offset == 0x02C) s _ _ (set_uart-Keeps n _ s refl) (
              choice-Keeps (offset == 0x030) s _ _ (cr-Keeps n val s) (
                choice-Keeps (offset == 0x034) s _ _ (set_uart-Keeps n _ s refl) (
                  choice-Keeps (offset == 0x038) s _ _
                    (world-Keeps s _ _ (set_uart-Keeps n _ s refl))
                    (choice-Keeps (offset == 0x044) s _ _
                      (world-Keeps s _ _ (set_uart-Keeps n _ s refl))
                      (choice-Keeps (offset == 0x048) s _ _ (set_uart-Keeps n _ s refl)
                        (self-Keeps s))))))))))

  pub write-Keeps :
      (n offset val : ℕ) (s : Uarts W)
      → Keeps s (uart_write32 nvic_signal_rp2350_irq transmit n offset val s)
  unfolding uart_write32
  write-Keeps n offset val s = world-Keeps s _ _ (write_register-Keeps n offset val s)

  tick_port-Keeps : (i : ℕ) (s : Uarts W) → Keeps s (tick_port nvic_signal_rp2350_irq i s)
  unfolding tick_port
  tick_port-Keeps i s =
      let u = s.uart_state i in
      choice-Keeps (u.rx_rt_ctr == 0) s _ _ (self-Keeps s) (
        choice-Keeps ((u.rx_rt_ctr - 1 == 0) && ltb 0 u.rx_count && not (test u.ris 0x40)) s _ _
          (world-Keeps s _ _ (set_uart-Keeps i _ s refl)) (set_uart-Keeps i _ s refl))

  pub tick-Keeps : (s : Uarts W) → Keeps s (uart_tick nvic_signal_rp2350_irq s)
  unfolding uart_tick
  tick-Keeps s =
      then-Keeps s (tick_port nvic_signal_rp2350_irq 0 s) _ (tick_port-Keeps 0 s)
        (tick_port-Keeps 1 _)
