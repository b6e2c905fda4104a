-- ===== src/Sio/Fifo.antt =====
-- The FIFOs between the cores of src/cpu.c. `core_id` is not negative at any call.
use picoemu.Base.{ℕ, ◌+◌, ◌-◌, ◌%◌, Bool, true, false, leb, ◌==◌, if◌then◌else◌, Option, some, none}
use picoemu.Thumb.State.{update}

-- `multicore_fifo_t`; an index into `messages` is always below FIFO_DEPTH, which is 32.
pub record MulticoreFifo : Type 0 where
  pub messages : ℕ → ℕ
  pub write_ptr : ℕ
  pub read_ptr : ℕ
  pub count : ℕ

-- The array `fifo`, and the interrupt controller that `nvic_signal_rp2350_irq` changes.
pub record Fifos (W : Type 0) : Type 0 where
  pub fifo : ℕ → MulticoreFifo
  pub nvic : W

abbrev pub put_fifo : {W : Type 0} → ℕ → MulticoreFifo → Fifos W → Fifos W
put_fifo core_id f s = record s { fifo = λ j. if core_id == j then f else s.fifo j }

abbrev pub put : ℕ → MulticoreFifo → MulticoreFifo
put val f = record f {
  messages = update f.messages f.write_ptr val;
  write_ptr = (f.write_ptr + 1) % 32;
  count = f.count + 1;
}

abbrev pub drop_first : MulticoreFifo → MulticoreFifo
drop_first f = record f { read_ptr = (f.read_ptr + 1) % 32; count = f.count - 1 }

unfoldable pub fifo_is_empty : {W : Type 0} → ℕ → Fifos W → Bool
fifo_is_empty core_id s = if leb 2 core_id then true else (s.fifo core_id).count == 0

unfoldable pub fifo_is_full : {W : Type 0} → ℕ → Fifos W → Bool
fifo_is_full core_id s = if leb 2 core_id then true else leb 32 (s.fifo core_id).count

unfoldable pub fifo_pop : {W : Type 0} → ℕ → Fifos W → ℕ × Fifos W
fifo_pop core_id s =
    let f = s.fifo core_id in
    if leb 2 core_id
    then (0, s)
    else if f.count == 0
    then (0, s)
    else (f.messages f.read_ptr, put_fifo core_id (drop_first f) s)

unfoldable pub fifo_push : {W : Type 0} → ℕ → ℕ → Fifos W → Fifos W
fifo_push core_id val s =
    let f = s.fifo core_id in
    if leb 2 core_id then s else if leb 32 f.count then s else put_fifo core_id (put val f) s

-- `none` is the result 0, which leaves `*val` as it is; `some` is the result 1 with `*val`.
unfoldable pub fifo_try_pop : {W : Type 0} → ℕ → Fifos W → Option ℕ × Fifos W
fifo_try_pop core_id s =
    let f = s.fifo core_id in
    if leb 2 core_id
    then (none, s)
    else if f.count == 0
    then (none, s)
    else (some (f.messages f.read_ptr), put_fifo core_id (drop_first f) s)

module _ {W : Type 0} (nvic_signal_rp2350_irq : ℕ → W → W) where
  -- The receiving core's interrupt SIO_IRQ_PROC0 or SIO_IRQ_PROC1 is signalled.
  unfoldable pub fifo_try_push : ℕ → ℕ → Fifos W → Bool × Fifos W
  fifo_try_push core_id val s =
      let f = s.fifo core_id in
      if leb 2 core_id then (false, s) else if leb 32 f.count then (false, s) else (
        true,
        record (put_fifo core_id (put val f) s) {
          nvic = nvic_signal_rp2350_irq (if core_id == 0 then 15 else 16) s.nvic;
        },
      )
