-- ===== src/Uart/Queue.antt =====
-- The receive FIFOs of src/uart.c against a specification by lists.
use mathlib.Core.Path.{ap₂}
use picoemu.Base.{
  ==_iff, ℕ, suc, ◌≡◌, refl, ap, true, false, ◌&&◌, ◌||◌, leb, ltb, ◌==◌, Bool-cases, inl, inr,
  if◌then◌else◌, Option, some, none, List, [], ◌∷◌, ◌++◌, length, arith,
}
use picoemu.Sio.Queue.{set_queue, first_of, rest_of}
use picoemu.Uart.Ports.{
  Uart, Uarts, rx_trigger_level, uart_rx_update_irq, drop_byte, uart_rx_pop, put_byte, uart_rx_push,
  uart_tick,
}
use picoemu.Uart.Registers.{flag_register, read_register, uart_read32, uart_write32}
use picoemu.Uart.Rings.{
  ring, HoldsBytes, put-HoldsBytes, drop-HoldsBytes, moved, PortsHold, kept_PortsHold,
  set-PortsHold,
}
use picoemu.Uart.Kept.{write-Keeps, tick-Keeps}

-- What is done to the ports: a byte arrives, a register is read or written, a step passes.
pub data PortOperation : Type 0 where
  arrive : ℕ → ℕ → PortOperation
  read : ℕ → ℕ → PortOperation
  write : ℕ → ℕ → ℕ → PortOperation
  tick : PortOperation

-- The flag register by the number of bytes received.
abbrev flags_of : ℕ → ℕ
flags_of n = if n == 0 then 0x90 else if n == 16 then 0xC0 else 0x80

abbrev or_zero : Option ℕ → ℕ
or_zero none = 0
or_zero (some x) = x

-- The specification: a queue of at most 16 bytes for each port, of which DR reads the first, and 0 when
-- there is none. The other registers but FR are left open.
unfoldable pub port_queue_step : PortOperation → (ℕ → List ℕ) → Option ℕ × (ℕ → List ℕ)
port_queue_step (arrive n val) queues =
    let q = queues n in
    if ltb n 2 && ltb (length q) 16
    then (some 1, set_queue n (q ++ (val ∷ [])) queues)
    else (some 0, queues)
port_queue_step (read n offset) queues =
    let q = queues n in
    if offset == 0x000
    then (some (or_zero (first_of q)), set_queue n (rest_of q) queues)
    else if offset == 0x018
    then (some (flags_of (length q)), queues)
    else (none, queues)
port_queue_step (write n offset val) queues = (none, queues)
port_queue_step tick queues = (none, queues)

-- The state after a sequence of operations, and what they answered.
unfoldable pub port_queue_run : List PortOperation → (ℕ → List ℕ) → List (Option ℕ)
unfolding port_queue_step
port_queue_run [] queues = []
port_queue_run (op ∷ ops) queues =
    let out = port_queue_step op queues in out.0 ∷ port_queue_run ops out.1

module _ {W : Type 0} (nvic_signal_rp2350_irq : ℕ → W → W) (transmit : ℕ → ℕ → W → W) where
  -- The same operation by the functions of src/uart.c.
  unfoldable pub port_step : PortOperation → Uarts W → Option ℕ × Uarts W
  port_step (arrive n val) s =
      let out = uart_rx_push nvic_signal_rp2350_irq n val s in
      (some (if out.0 then 1 else 0), out.1)
  port_step (read n offset) s =
      let out = uart_read32 n offset s in
      (if (offset == 0x000) || (offset == 0x018) then some out.0 else none, out.1)
  port_step (write n offset val) s =
      (none, uart_write32 nvic_signal_rp2350_irq transmit n offset val s)
  port_step tick s = (none, uart_tick nvic_signal_rp2350_irq s)

  ring_update_irq : (u : Uart) → ring (uart_rx_update_irq u) ≡ ring u
  unfolding uart_rx_update_irq
  ring_update_irq u = elim (Bool-cases (leb (rx_trigger_level u) u.rx_count)) [
    | inl e ↦ rw e
    | inr e ↦ rw e
  ]

  -- One operation: the answer is the queue's, and the ports hold the queues afterwards.
  Stepped : PortOperation → Uarts W → (ℕ → List ℕ) → Type 0
  Stepped op s queues =
      ((port_step op s).0 ≡ (port_queue_step op queues).0)
      × PortsHold (port_step op s).1 (port_queue_step op queues).1

  arrive-Stepped :
      (n val : ℕ) (s : Uarts W) (queues : ℕ → List ℕ)
      → PortsHold s queues
      → Stepped (arrive n val) s queues
  unfolding Stepped port_step port_queue_step uart_rx_push put_byte
  arrive-Stepped n val s queues h =
      let q = queues n in
      let u = s.uart_state n in
      let size : u.rx_count ≡ length q = (h n).size in
      elim (Bool-cases (ltb n 2)) [
        | inr e ↦
            let out : leb 2 n ≡ true = ground arith in
            let test : (ltb n 2 && ltb (length q) 16) ≡ false = rw e in rw (out, test) (refl, h)
        | inl e ↦ elim (Bool-cases (ltb (length q) 16)) [
          | inl free ↦
              let valid : leb 2 n ≡ false = ground arith in
              let room : leb 16 u.rx_count ≡ false = ground arith in
              let test : (ltb n 2 && ltb (length q) 16) ≡ true = rw (e, free) in
              rw (valid, room, test)
                (
                  refl,
                  set-PortsHold n _ (q ++ (val ∷ [])) s queues h (
                      moved _ _ _ (ring_update_irq _)
                        (put-HoldsBytes u q val 0 (h n) (ground arith))),
                )
          | inr full ↦
              let valid : leb 2 n ≡ false = ground arith in
              let room : leb 16 u.rx_count ≡ true = ground arith in
              let test : (ltb n 2 && ltb (length q) 16) ≡ false = rw (e, full) in
              rw (valid, room, test) (refl, h)
        ]
      ]

  popped_byte :
      (u : Uart) (x : ℕ) (q : List ℕ)
      → HoldsBytes (ring u) (x ∷ q)
      → ((uart_rx_pop u).0 ≡ x) × HoldsBytes (ring (uart_rx_pop u).1) q
  unfolding uart_rx_pop
  popped_byte u x q h =
      let some_left : (u.rx_count == 0) ≡ false = ground (arith, h.size) in
      let out = drop-HoldsBytes u x q h in
      rw some_left (
        out.0,
        elim (Bool-cases (ltb (drop_byte u).rx_count (rx_trigger_level (drop_byte u)))) [
          | inl e ↦ rw e out.1
          | inr e ↦ rw e out.1
        ],
      )

  data_register :
      (n : ℕ) (s : Uarts W) (queues : ℕ → List ℕ) (q : List ℕ)
      → PortsHold s queues
      → queues n ≡ q
      → HoldsBytes (ring (s.uart_state n)) q
      → ((uart_read32 n 0x000 s).0 ≡ or_zero (first_of q))
        × PortsHold (uart_read32 n 0x000 s).1 (set_queue n (rest_of q) queues)
  unfolding uart_read32
  data_register n s queues [] h e here =
      let size : (s.uart_state n).rx_count ≡ 0 = here.size in
      let nothing : ltb 0 (s.uart_state n).rx_count ≡ false = ground arith in
      rw nothing (
        refl,
        λ j. elim (Bool-cases (n == j)) [
          | inl at ↦ let same : n ≡ j = (==_iff n j).0 at in rw (at, ← same) here
          | inr at ↦ rw at (h j)
        ],
      )
  data_register n s queues (x ∷ q) h e here =
      let size : (s.uart_state n).rx_count ≡ suc (length q) = here.size in
      let something : ltb 0 (s.uart_state n).rx_count ≡ true = ground arith in
      let out = popped_byte (s.uart_state n) x q here in
      rw something (out.0, set-PortsHold n _ q s queues h out.1)

  flag_register_lem :
      (u : Uart) (q : List ℕ) → HoldsBytes (ring u) q → flag_register u ≡ flags_of (length q)
  flag_register_lem u q h =
      let size : u.rx_count ≡ length q = h.size in
      let room = h.room in
      elim (Bool-cases (length q == 0)) [
        | inl e ↦
            let zeros : (u.rx_count == 0) ≡ true = ground arith in
            let few : leb 16 u.rx_count ≡ false = ground arith in rw (zeros, few, e)
        | inr e ↦ elim (Bool-cases (length q == 16)) [
          | inl full ↦
              let some_left : (u.rx_count == 0) ≡ false = ground arith in
              let all : leb 16 u.rx_count ≡ true = ground arith in rw (some_left, all, e, full)
          | inr part ↦
              let some_left : (u.rx_count == 0) ≡ false = ground arith in
              let few : leb 16 u.rx_count ≡ false = ground arith in rw (some_left, few, e, part)
        ]
      ]

  read-Stepped :
      (n offset : ℕ) (s : Uarts W) (queues : ℕ → List ℕ)
      → PortsHold s queues
      → Stepped (read n offset) s queues
  unfolding Stepped port_step port_queue_step uart_read32 read_register
  read-Stepped n offset s queues h = elim (Bool-cases (offset == 0x000)) [
    | inl e ↦
        let at : offset ≡ 0x000 = (==_iff offset 0).0 e in
        let out = data_register n s queues (queues n) h refl (h n) in rw at (ap some out.0, out.1)
    | inr e ↦ elim (Bool-cases (offset == 0x018)) [
      | inl f ↦
          let at : offset ≡ 0x018 = (==_iff offset 0x018).0 f in
          rw at (ap some (flag_register_lem (s.uart_state n) (queues n) (h n)), h)
      | inr f ↦ rw (e, f) (refl, h)
    ]
  ]

  step-Stepped :
      (op : PortOperation) (s : Uarts W) (queues : ℕ → List ℕ)
      → PortsHold s queues
      → Stepped op s queues
  unfolding Stepped port_step port_queue_step
  step-Stepped (arrive n val) s queues h = arrive-Stepped n val s queues h
  step-Stepped (read n offset) s queues h = read-Stepped n offset s queues h
  step-Stepped (write n offset val) s queues h = (
    refl,
    kept_PortsHold s _ queues (write-Keeps nvic_signal_rp2350_irq transmit n offset val s) h,
  )
  step-Stepped tick s queues h =
      (refl, kept_PortsHold s _ queues (tick-Keeps nvic_signal_rp2350_irq transmit s) h)

  -- The answers of a sequence of operations.
  unfoldable pub uart_run : List PortOperation → Uarts W → List (Option ℕ)
  unfolding port_step
  uart_run [] s = []
  uart_run (op ∷ ops) s = let out = port_step op s in out.0 ∷ uart_run ops out.1

  -- Any sequence of arriving bytes, reads and writes of any register and ticks, from ports that hold the
  -- bytes of the given queues, answers as a queue of at most 16 bytes for each port does: a byte is
  -- accepted on the ports 0 and 1 just when there is room, a read of DR takes the oldest byte, or 0 when
  -- there is none, a read of FR tells an empty and a full queue, and no write and no tick loses or
  -- changes a byte.
  pub uart_run-port_queue_run :
      (ops : List PortOperation) (s : Uarts W) (queues : ℕ → List ℕ)
      → PortsHold s queues
      → uart_run ops s ≡ port_queue_run ops queues
  unfolding uart_run port_queue_run Stepped
  uart_run-port_queue_run [] s queues h = refl
  uart_run-port_queue_run (op ∷ ops) s queues h =
      let out = step-Stepped op s queues h in
      ap₂ ◌∷◌ out.0
        (uart_run-port_queue_run ops (port_step op s).1 (port_queue_step op queues).1 out.1)
