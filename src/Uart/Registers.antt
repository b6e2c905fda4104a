-- ===== src/Uart/Registers.antt =====
-- The registers of the serial ports in src/uart.c.
use picoemu.Base.{ℕ, ◌+◌, bit_and, bit_or, ◌==◌, leb, ltb, if◌then◌else◌, u32, not32}
use picoemu.Thumb.Flags.{test}
use picoemu.Uart.Ports.{Uart, Uarts, set_uart, uart_rx_pop, uart_check_irq}

-- The flags: the transmit FIFO is always empty.
abbrev pub flag_register : Uart → ℕ
flag_register u =
    bit_or (bit_or 0x80 (if u.rx_count == 0 then 0x10 else 0))
      (if leb 16 u.rx_count then 0x40 else 0)

-- The registers that a read leaves as they are.
unfoldable pub read_register : ℕ → Uart → ℕ
read_register offset u =
    if offset == 0x004
    then u.rsr
    else if offset == 0x018
    then flag_register u
    else if offset == 0x024
    then u.ibrd
    else if offset == 0x028
    then u.fbrd
    else if offset == 0x02C
    then u.lcr_h
    else if offset == 0x030
    then u.cr
    else if offset == 0x034
    then u.ifls
    else if offset == 0x038
    then u.imsc
    else if offset == 0x03C
    then u.ris
    else if offset == 0x040
    then bit_and u.ris u.imsc
    else if offset == 0x048
    then u.dmacr
    else if offset == 0xFE0
    then 0x11
    else if offset == 0xFE4
    then 0x10
    else if offset == 0xFE8
    then 0x34
    else if offset == 0xFEC
    then 0x00
    else if offset == 0xFF0
    then 0x0D
    else if offset == 0xFF4
    then 0xF0
    else if offset == 0xFF8
    then 0x05
    else if offset == 0xFFC
    then 0xB1
    else 0

unfoldable pub uart_read32 : {W : Type 0} → ℕ → ℕ → Uarts W → ℕ × Uarts W
uart_read32 uart_num offset s =
    let u = s.uart_state uart_num in
    let popped = uart_rx_pop u in
    if offset == 0x000
    then (if ltb 0 u.rx_count then (popped.0, set_uart uart_num popped.1 s) else (0, s))
    else (read_register offset u, s)

-- `transmit` is where a sent byte goes: the logs, a bridge, a wire or the output.
module _ {W : Type 0} (nvic_signal_rp2350_irq : ℕ → W → W) (transmit : ℕ → ℕ → W → W) where
  -- DR: the byte is sent when the transmitter is enabled.
  unfoldable pub send_byte : ℕ → ℕ → Uarts W → Uarts W
  send_byte uart_num val s =
      let u = record (s.uart_state uart_num) { dr = val } in
      let sent = record u { tx_activity = u32 (u.tx_activity + 1); ris = bit_or u.ris 0x20 } in
      let out = uart_check_irq nvic_signal_rp2350_irq uart_num (set_uart uart_num sent s) in
      if test u.cr 0x100
      then record out { world = transmit uart_num (bit_and val 0xFF) out.world }
      else set_uart uart_num u s

  -- CR: enabling asserts the transmit interrupt.
  unfoldable pub write_cr : ℕ → ℕ → Uarts W → Uarts W
  write_cr uart_num val s =
      let enabled = if test val 1 then 1 else 0 in
      let u = record (s.uart_state uart_num) { cr = bit_and val 0xFFFF; enabled = enabled } in
      if enabled == 0
      then set_uart uart_num u s
      else uart_check_irq nvic_signal_rp2350_irq uart_num
          (set_uart uart_num (record u { ris = bit_or u.ris 0x20 }) s)

  -- The `switch` of `uart_write32`.
  unfoldable pub write_register : ℕ → ℕ → ℕ → Uarts W → Uarts W
  unfolding send_byte write_cr
  write_register uart_num offset val s =
      let u = s.uart_state uart_num in
      if offset == 0x000
      then send_byte uart_num val s
      else if offset == 0x004
      then set_uart uart_num (record u { rsr = 0 }) s
      else if offset == 0x024
      then set_uart uart_num (record u { ibrd = bit_and val 0xFFFF }) s
      else if offset == 0x028
      then set_uart uart_num (record u { fbrd = bit_and val 0x3F }) s
      else if offset == 0x02C
      then set_uart uart_num (record u { lcr_h = bit_and val 0xFF }) s
      else if offset == 0x030
      then write_cr uart_num val s
      else if offset == 0x034
      then set_uart uart_num (record u { ifls = bit_and val 0x3F }) s
      else if offset == 0x038
      then uart_check_irq nvic_signal_rp2350_irq uart_num
          (set_uart uart_num (record u { imsc = bit_and val 0x7FF }) s)
      else if offset == 0x044
      then uart_check_irq nvic_signal_rp2350_irq uart_num
          (set_uart uart_num (record u { ris = bit_and u.ris (not32 (bit_and val 0x7FF)) }) s)
      else if offset == 0x048
      then set_uart uart_num (record u { dmacr = bit_and val 0x07 }) s
      else s

  unfoldable pub uart_write32 : ℕ → ℕ → ℕ → Uarts W → Uarts W
  unfolding write_register
  uart_write32 uart_num offset val s =
      uart_check_irq nvic_signal_rp2350_irq uart_num (write_register uart_num offset val s)
