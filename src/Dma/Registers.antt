-- ===== src/Dma/Registers.antt =====
-- The registers of src/dma.c at their offsets, in the four layouts of each channel.
use picoemu.Base.{
  ℕ, zero, suc, ◌+◌, ◌*◌, ◌/◌, ◌%◌, bit_and, bit_or, Bool, ◌&&◌, ◌==◌, ltb, leb, if◌then◌else◌,
  Option, none, some, List, [], ◌∷◌, get_or, ◌<<◌, not32,
}
use picoemu.Thumb.State.{update}
use picoemu.Thumb.Flags.{test}
use picoemu.Dma.Channels.{
  Channel, Dma, System, DmaEnv, dma_num_channels, set_channel, dma_do_transfer,
}

-- `dma_match`
unfoldable pub dma_match : ℕ → Bool
dma_match addr =
    let base = bit_and addr (not32 0x3000) in leb 0x50000000 base && ltb base (0x50000000 + 0x4C0)

-- `enum dma_field`
pub data DmaField : Type 0 where
  f_ctrl f_read f_write f_count : DmaField

-- `alias_layout`
abbrev alias_layout : List (List DmaField)
alias_layout =
    (f_read ∷ f_write ∷ f_count ∷ f_ctrl ∷ [])
    ∷ (f_ctrl ∷ f_read ∷ f_write ∷ f_count ∷ [])
    ∷ (f_ctrl ∷ f_count ∷ f_read ∷ f_write ∷ [])
    ∷ (f_ctrl ∷ f_write ∷ f_count ∷ f_read ∷ [])
    ∷ []

unfoldable pub layout : ℕ → ℕ → DmaField
layout alias index = get_or (get_or alias_layout alias []) index f_ctrl

-- CTRL keeps the busy bit and the error flags; a 1 clears the write and the read error.
abbrev pub written_ctrl : Bool → ℕ → ℕ → ℕ
written_ctrl rp2350 val old =
    let errors = bit_or (1 << 29) (1 << 30) in
    let cleared = bit_and old (not32 (bit_and val errors)) in
    let busy = if rp2350 then 1 << 26 else 1 << 24 in
    let writable = not32 (bit_or (bit_or busy (1 << 31)) errors) in
    bit_or (bit_and cleared (not32 writable)) (bit_and val writable)

-- One field is set.
unfoldable pub put_field : Bool → DmaField → ℕ → Channel → Channel
put_field rp2350 f_ctrl val c = record c { ctrl = written_ctrl rp2350 val c.ctrl }
put_field rp2350 f_read val c = record c { read_addr = val }
put_field rp2350 f_write val c = record c { write_addr = val }
put_field rp2350 f_count val c = record c { trans_count = val }

unfoldable pub ch_field_read : ℕ → DmaField → Dma → ℕ
ch_field_read i f_ctrl d = (d.ch i).ctrl
ch_field_read i f_read d = (d.ch i).read_addr
ch_field_read i f_write d = (d.ch i).write_addr
ch_field_read i f_count d = (d.ch i).trans_count

unfoldable pub dma_read32 : ℕ → Dma → ℕ
unfolding layout ch_field_read
dma_read32 offset d =
    let reg = offset % 0x40 in
    if ltb offset (dma_num_channels * 0x40)
    then ch_field_read (offset / 0x40) (layout (reg / 0x10) (reg % 0x10 / 4)) d
    else if offset == 0x400
    then d.intr
    else if offset == 0x404
    then d.inte0
    else if offset == 0x408
    then d.intf0
    else if offset == 0x40C
    then bit_and (bit_or d.intr d.intf0) d.inte0
    else if offset == 0x414
    then d.inte1
    else if offset == 0x418
    then d.intf1
    else if offset == 0x41C
    then bit_and (bit_or d.intr d.intf1) d.inte1
    else if offset == 0x420
    then d.timer 0
    else if offset == 0x424
    then d.timer 1
    else if offset == 0x428
    then d.timer 2
    else if offset == 0x42C
    then d.timer 3
    else if offset == 0x434
    then d.sniff_ctrl
    else if offset == 0x438
    then d.sniff_data
    else if offset == 0x448
    then dma_num_channels
    else 0

-- The channels that a mask names have no transfers left.
abbrev aborted : ℕ → Dma → Dma
aborted val d = record d {
  ch = λ i.
      if ltb i dma_num_channels && test val (1 << i)
      then record (d.ch i) { trans_count = 0 }
      else d.ch i;
}

-- The global registers but MULTI_CHAN_TRIGGER.
unfoldable pub write_global : ℕ → ℕ → Dma → Dma
write_global offset val d =
    let all = bit_and val 0xFFFF in
    if offset == 0x400
    then record d { intr = bit_and d.intr (not32 val) }
    else if offset == 0x404
    then record d { inte0 = all }
    else if offset == 0x408
    then record d { intf0 = all }
    else if offset == 0x414
    then record d { inte1 = all }
    else if offset == 0x418
    then record d { intf1 = all }
    else if offset == 0x420
    then record d { timer = update d.timer 0 val }
    else if offset == 0x424
    then record d { timer = update d.timer 1 val }
    else if offset == 0x428
    then record d { timer = update d.timer 2 val }
    else if offset == 0x42C
    then record d { timer = update d.timer 3 val }
    else if offset == 0x434
    then record d { sniff_ctrl = val }
    else if offset == 0x438
    then record d { sniff_data = val }
    else if offset == 0x444
    then aborted val d
    else d

module _ {W : Type 0} (env : DmaEnv W) where
  unfoldable pub ch_field_write : ℕ → DmaField → ℕ → Bool → System W → Option (System W)
  unfolding put_field
  ch_field_write i f val trigger m =
      let c = put_field env.membus_rp2350_mode f val (m.dma.ch i) in
      let stored = record m { dma = set_channel i c m.dma } in
      let run = dma_do_transfer env i stored in if trigger then run else some stored

  abbrev and_then : Option (System W) → (System W → Option (System W)) → Option (System W)
  and_then none f = none
  and_then (some m) f = f m

  -- MULTI_CHAN_TRIGGER: `left` turns from channel `i` on.
  unfoldable pub trigger_loop : ℕ → ℕ → ℕ → System W → Option (System W)
  trigger_loop zero i val m = some m
  trigger_loop (suc left) i val m =
      let run = dma_do_transfer env i m in
      and_then (if test val (1 << i) then run else some m) (trigger_loop left (i + 1) val)

  unfoldable pub dma_write32 : ℕ → ℕ → System W → Option (System W)
  unfolding ch_field_write layout write_global trigger_loop
  dma_write32 offset val m =
      let reg = offset % 0x40 in
      let index = reg % 0x10 / 4 in
      if ltb offset (dma_num_channels * 0x40)
      then ch_field_write (offset / 0x40) (layout (reg / 0x10) index) val (index == 3) m
      else if offset == 0x430
      then trigger_loop dma_num_channels 0 val m
      else some (record m { dma = write_global offset val m.dma })
