-- ===== src/Sio/Registers.antt =====
-- The registers of the single-cycle IO block: `sio_read32` and `sio_write32` of src/membus.c, and the
-- spinlock addresses of `mem_read32` and `mem_write32`.
use picoemu.Base.{
  ℕ, ◌+◌, ◌-◌, bit_and, bit_or, Bool, ◌&&◌, ◌||◌, leb, ◌==◌, if◌then◌else◌, Option, some, none,
  not32,
}
use picoemu.Thumb.State.{update}
use picoemu.Sio.Divider.{Divider, sio_read_divider, sio_write_divider}
use picoemu.Sio.Interp.{Interp, sio_interp_read, sio_interp_write}
use picoemu.Sio.Spinlock.{sio_spinlock_state_bitmap}
use picoemu.Sio.Fifo.{Fifos, fifo_is_empty, fifo_is_full, fifo_try_pop, fifo_try_push}

-- The arrays that the registers stand for, indexed by the core, and all else: the interrupt
-- controller in `fifos`, the pins and the boot ROM's handshake in `pins`.
pub record Sio (W P : Type 0) : Type 0 where
  pub dividers : ℕ → Divider
  pub interp : ℕ → ℕ → Interp
  pub sticky : ℕ → ℕ
  pub spinlocks : ℕ → ℕ
  pub fifos : Fifos W
  pub pins : P

-- What is called in other files. `bootrom_write` is `sio_core1_bootrom_handle_fifo_write`, with
-- `none` where it returns 0.
pub record SioEnv (W P : Type 0) : Type 0 where
  pub gpio_read32 : ℕ → Sio W P → ℕ × Sio W P
  pub gpio_write32 : ℕ → ℕ → Sio W P → Sio W P
  pub bootrom_write : ℕ → Sio W P → Option (Sio W P)
  pub sio_bootrom_poll : Sio W P → Sio W P
  pub nvic_signal_rp2350_irq : ℕ → W → W

-- GPIO_OUT to GPIO_OE_XOR, and the pins of the flash.
abbrev gpio_written : ℕ → Bool
gpio_written offset = (leb 0x10 offset && leb offset 0x2C) || (leb 0x30 offset && leb offset 0x4C)

abbrev gpio_readable : ℕ → Bool
gpio_readable offset = (leb 0x04 offset && leb offset 0x2C) || (leb 0x30 offset && leb offset 0x4C)

-- The interpolator and its register of an offset from 0x80.
abbrev interp_idx : ℕ → ℕ
interp_idx offset = if leb 0xC0 offset then 1 else 0

abbrev interp_reg : ℕ → ℕ
interp_reg offset = offset - (if leb 0xC0 offset then 0xC0 else 0x80)

abbrev pub put_at : {A : Type 0} → (ℕ → A) → ℕ → A → ℕ → A
put_at f i a j = if i == j then a else f j

module _ {W P : Type 0} (env : SioEnv W P) where
  unfoldable pub sio_fifo_status : ℕ → Sio W P → ℕ
  sio_fifo_status core_id s =
      let valid =
        if fifo_is_empty core_id s.fifos then s.sticky core_id else bit_or (s.sticky core_id) 1 in
      if fifo_is_full core_id s.fifos then valid else bit_or valid 2

  -- A write to FIFO_WR goes to the other core; WOF is set when there is no room.
  unfoldable pub write_fifo : ℕ → ℕ → Sio W P → Sio W P
  write_fifo core_id val s =
      let other_core = if core_id == 0 then 1 else 0 in
      let (pushed, fifos) = fifo_try_push env.nvic_signal_rp2350_irq other_core val s.fifos in
      let sent = if pushed then record s { fifos = fifos } else record s {
        sticky = update s.sticky core_id (bit_or (s.sticky core_id) 4);
        fifos = fifos;
      } in
      if other_core == 1
      then elim (env.bootrom_write val s) [ some handled ↦ handled | none ↦ sent ]
      else sent

  unfoldable pub sio_write32 : ℕ → ℕ → ℕ → Sio W P → Sio W P
  sio_write32 core_id offset val s =
      if gpio_written offset
      then env.gpio_write32 (0xD0000000 + offset) val s
      else if leb 0x80 offset && leb offset 0xFC
      then record s {
        interp = put_at s.interp core_id (
            put_at (s.interp core_id) (interp_idx offset)
              (sio_interp_write (interp_reg offset) val (s.interp core_id (interp_idx offset))));
      }
      else if offset == 0x50
      then record s {
        sticky = update s.sticky core_id (bit_and (s.sticky core_id) (not32 (bit_and val 0xC)));
      }
      else if offset == 0x54
      then write_fifo core_id val s
      else if leb 0x60 offset && leb offset 0x74
      then record s {
        dividers = put_at s.dividers core_id (sio_write_divider offset val (s.dividers core_id));
      }
      else s

  -- A read of FIFO_RD; ROE is set when there is nothing.
  unfoldable pub read_fifo : ℕ → Sio W P → ℕ × Sio W P
  read_fifo core_id s =
      let (got, fifos) = fifo_try_pop core_id s.fifos in
      elim got [
        | some val ↦ (val, record s { fifos = fifos })
        | none ↦ (
          0,
          record s {
            sticky = update s.sticky core_id (bit_or (s.sticky core_id) 8);
            fifos = fifos;
          },
        )
      ]

  unfoldable pub sio_read32 : ℕ → ℕ → Sio W P → ℕ × Sio W P
  sio_read32 core_id offset s =
      if leb 0x80 offset && leb offset 0xFC
      then (let out = sio_interp_read (interp_reg offset) (s.interp core_id (interp_idx offset)) in
          (
            out.0,
            record s {
              interp =
                  put_at s.interp core_id (put_at (s.interp core_id) (interp_idx offset) out.1);
            },
          ))
      else if gpio_readable offset
      then (if offset == 0x08 then (0x3E, s) else env.gpio_read32 (0xD0000000 + offset) s)
      else if offset == 0x00
      then (core_id, s)
      else if offset == 0x50
      then (let polled = env.sio_bootrom_poll s in (sio_fifo_status core_id polled, polled))
      else if offset == 0x58
      then read_fifo core_id s
      else if offset == 0x5C
      then (sio_spinlock_state_bitmap s.spinlocks, s)
      else if leb 0x60 offset && leb offset 0x78
      then (let out = sio_read_divider offset (s.dividers core_id) in
          (out.0, record s { dividers = put_at s.dividers core_id out.1 }))
      else (0, s)
