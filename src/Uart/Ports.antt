-- ===== src/Uart/Ports.antt =====
-- The serial ports of src/uart.c with include/uart.h: the receive FIFO, the interrupts and the tick.
use picoemu.Base.{
  ℕ, ◌+◌, ◌-◌, ◌%◌, bit_and, bit_or, Bool, true, false, not, ◌&&◌, ◌==◌, leb, ltb, if◌then◌else◌,
  Option, some, none, not32,
}
use picoemu.Thumb.State.{update}
use picoemu.Thumb.Flags.{bits, test}

-- `uart_state_t`; an index into `rx_fifo` is always below UART_RX_FIFO_SIZE, which is 16.
pub record Uart : Type 0 where
  pub dr : ℕ
  pub rsr : ℕ
  pub ibrd : ℕ
  pub fbrd : ℕ
  pub lcr_h : ℕ
  pub cr : ℕ
  pub ifls : ℕ
  pub imsc : ℕ
  pub ris : ℕ
  pub dmacr : ℕ
  pub enabled : ℕ
  pub tx_activity : ℕ
  pub rx_fifo : ℕ → ℕ
  pub rx_head : ℕ
  pub rx_tail : ℕ
  pub rx_count : ℕ
  pub rx_rt_ctr : ℕ

-- The array `uart_state`, and what the functions reach outside of it.
pub record Uarts (W : Type 0) : Type 0 where
  pub uart_state : ℕ → Uart
  pub world : W

abbrev pub set_uart : {W : Type 0} → ℕ → Uart → Uarts W → Uarts W
set_uart n u s = record s { uart_state = λ j. if n == j then u else s.uart_state j }

abbrev pub uart_reset_instance : Uart
uart_reset_instance = record {
  dr = 0;
  rsr = 0;
  ibrd = 0;
  fbrd = 0;
  lcr_h = 0;
  cr = 0;
  ifls = 0x12;
  imsc = 0;
  ris = 0;
  dmacr = 0;
  enabled = 0;
  tx_activity = 0;
  rx_fifo = λ i. 0;
  rx_head = 0;
  rx_tail = 0;
  rx_count = 0;
  rx_rt_ctr = 0;
}

unfoldable pub uart_init : {W : Type 0} → Uarts W → Uarts W
uart_init s = set_uart 1 uart_reset_instance (set_uart 0 uart_reset_instance s)

-- `base >= start && base < start + UART_BLOCK_SIZE`
abbrev in_block : ℕ → ℕ → Bool
in_block start base = leb start base && ltb base (start + 0x1000)

-- `none` is -1.
unfoldable pub uart_match : Bool → ℕ → Option ℕ
uart_match membus_rp2350_mode addr =
    let base = bit_and addr (not32 0x3000) in
    if membus_rp2350_mode && in_block 0x40070000 base
    then some 0
    else if membus_rp2350_mode && in_block 0x40078000 base
    then some 1
    else if in_block 0x40034000 base
    then some 0
    else if in_block 0x40038000 base
    then some 1
    else none

unfoldable pub rx_trigger_level : Uart → ℕ
rx_trigger_level u =
    let level = bits u.ifls 3 0x7 in
    if level == 0
    then 2
    else if level == 1
    then 4
    else if level == 2
    then 8
    else if level == 3
    then 12
    else if level == 4
    then 14
    else 8

-- UART_INT_RX is bit 4 of the status.
unfoldable pub uart_rx_update_irq : Uart → Uart
uart_rx_update_irq u =
    if leb (rx_trigger_level u) u.rx_count then record u { ris = bit_or u.ris 0x10 } else u

unfoldable pub uart_stdio_active : {W : Type 0} → ℕ → Uarts W → Bool
uart_stdio_active uart_num s =
    if leb 2 uart_num then false else ltb 0 (s.uart_state uart_num).tx_activity

-- The first byte leaves the FIFO.
abbrev pub drop_byte : Uart → Uart
drop_byte u = record u { rx_tail = (u.rx_tail + 1) % 16; rx_count = u.rx_count - 1 }

unfoldable pub uart_rx_pop : Uart → ℕ × Uart
uart_rx_pop u =
    let v = drop_byte u in
    if u.rx_count == 0 then (0, u) else (
      u.rx_fifo u.rx_tail,
      if ltb v.rx_count (rx_trigger_level v)
          then record v { ris = bit_and v.ris (not32 0x10) }
          else v,
    )

module _ {W : Type 0} (nvic_signal_rp2350_irq : ℕ → W → W) where
  -- IRQ_UART0_IRQ and IRQ_UART1_IRQ are 20 and 21.
  abbrev pub uart_check_irq : ℕ → Uarts W → Uarts W
  uart_check_irq uart_num s =
      let u = s.uart_state uart_num in
      record s {
        world =
            if bit_and u.ris u.imsc == 0
            then s.world
            else nvic_signal_rp2350_irq (if uart_num == 0 then 20 else 21) s.world;
      }

  -- The byte, the counters and the interrupt status of `uart_rx_push`.
  unfoldable pub put_byte : ℕ → Uart → Uart
  unfolding uart_rx_update_irq
  put_byte val u = uart_rx_update_irq (record u {
    rx_fifo = update u.rx_fifo u.rx_head val;
    rx_head = (u.rx_head + 1) % 16;
    rx_count = u.rx_count + 1;
    rx_rt_ctr = 32768;
  })

  unfoldable pub uart_rx_push : ℕ → ℕ → Uarts W → Bool × Uarts W
  unfolding put_byte
  uart_rx_push uart_num val s =
      let u = s.uart_state uart_num in
      if leb 2 uart_num
      then (false, s)
      else if leb 16 u.rx_count
      then (false, s)
      else (true, uart_check_irq uart_num (set_uart uart_num (put_byte val u) s))

  -- One turn of the loop of `uart_tick`; UART_INT_RT is bit 6 of the status.
  unfoldable pub tick_port : ℕ → Uarts W → Uarts W
  tick_port i s =
      let u = s.uart_state i in
      let counted = record u { rx_rt_ctr = u.rx_rt_ctr - 1 } in
      let out = record counted { ris = bit_or u.ris 0x40 } in
      if u.rx_rt_ctr == 0
      then s
      else if (u.rx_rt_ctr - 1 == 0) && ltb 0 u.rx_count && not (test u.ris 0x40)
      then uart_check_irq i (set_uart i out s)
      else set_uart i counted s

  unfoldable pub uart_tick : Uarts W → Uarts W
  unfolding tick_port
  uart_tick s = tick_port 1 (tick_port 0 s)
