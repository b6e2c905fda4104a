-- ===== src/Dma/Channels.antt =====
-- The channels of src/dma.c with include/dma.h, and the transfer engine. Traces are left out.
use picoemu.Base.{
  ℕ, zero, suc, ◌+◌, bit_and, bit_or, Bool, not, ◌&&◌, ◌==◌, ltb, if◌then◌else◌, Option, none, some,
  ◌<<◌, ◌>>◌, u16, u32,
}
use picoemu.Thumb.Flags.{test}

-- `dma_channel_t`
pub record Channel : Type 0 where
  pub read_addr : ℕ
  pub write_addr : ℕ
  pub trans_count : ℕ
  pub ctrl : ℕ

-- `dma_state_t`
pub record Dma : Type 0 where
  pub ch : ℕ → Channel
  pub intr : ℕ
  pub inte0 : ℕ
  pub intf0 : ℕ
  pub inte1 : ℕ
  pub intf1 : ℕ
  pub timer : ℕ → ℕ
  pub sniff_ctrl : ℕ
  pub sniff_data : ℕ

-- The controller and all else.
pub record System (W : Type 0) : Type 0 where
  pub dma : Dma
  pub world : W

-- The memory bus, which reaches the controller's own registers too, and the interrupt controller.
pub record DmaEnv (W : Type 0) : Type 0 where
  pub membus_rp2350_mode : Bool
  pub mem_read8 : ℕ → System W → ℕ × System W
  pub mem_read16 : ℕ → System W → ℕ × System W
  pub mem_read32 : ℕ → System W → ℕ × System W
  pub mem_write8 : ℕ → ℕ → System W → System W
  pub mem_write16 : ℕ → ℕ → System W → System W
  pub mem_write32 : ℕ → ℕ → System W → System W
  pub nvic_signal_rp2350_irq : ℕ → System W → System W

abbrev pub dma_num_channels : ℕ
dma_num_channels = 16

abbrev pub set_channel : ℕ → Channel → Dma → Dma
set_channel i c d = record d { ch = λ j. if i == j then c else d.ch j }

-- The fields of CTRL in the layout of either chip.
abbrev pub ctrl_incr_write : Bool → ℕ
ctrl_incr_write rp2350 = if rp2350 then 1 << 6 else 1 << 5

abbrev pub ctrl_bswap : Bool → ℕ
ctrl_bswap rp2350 = if rp2350 then 1 << 24 else 1 << 22

abbrev pub ctrl_irq_quiet : Bool → ℕ
ctrl_irq_quiet rp2350 = if rp2350 then 1 << 23 else 1 << 21

abbrev pub ctrl_chain_to : Bool → ℕ → ℕ
ctrl_chain_to rp2350 ctrl =
    if rp2350 then bit_and ctrl (0xF << 13) >> 13 else bit_and ctrl (0xF << 11) >> 11

unfoldable pub dma_init : Bool → Dma
dma_init rp2350 = record {
  ch = λ i. record {
    read_addr = 0;
    write_addr = 0;
    trans_count = 0;
    ctrl = i << (if rp2350 then 13 else 11);
  };
  intr = 0;
  inte0 = 0;
  intf0 = 0;
  inte1 = 0;
  intf1 = 0;
  timer = λ i. 0;
  sniff_ctrl = 0;
  sniff_data = 0;
}

-- `(uint16_t)((val >> 8) | (val << 8))`, and the same of a word.
abbrev pub swap16 : ℕ → ℕ
swap16 val = u16 (bit_or (val >> 8) (val << 8))

abbrev pub swap32 : ℕ → ℕ
swap32 val =
    bit_or
      (bit_or (bit_or (bit_and (val >> 24) 0xFF) (bit_and (val >> 8) 0xFF00))
        (bit_and (u32 (val << 8)) 0xFF0000))
      (bit_and (u32 (val << 24)) 0xFF000000)

-- `data_size` and `step`, and what is added to the address of the reads after each turn.
abbrev pub data_size_of : Channel → ℕ
data_size_of c = bit_and c.ctrl (0x3 << 2) >> 2

abbrev pub step_of : Channel → ℕ
step_of c = if data_size_of c == 0 then 1 else if data_size_of c == 1 then 2 else 4

abbrev pub read_step : Channel → ℕ
read_step c = if test c.ctrl (1 << 4) then step_of c else 0

module _ {W : Type 0} (env : DmaEnv W) where
  -- One turn of the loop without the steps of the addresses.
  unfoldable pub transfer_one : ℕ → Bool → ℕ → ℕ → System W → System W
  transfer_one data_size bswap src dst m =
      let byte = env.mem_read8 src m in
      let half = env.mem_read16 src m in
      let word = env.mem_read32 src m in
      if data_size == 0
      then env.mem_write8 dst byte.0 byte.1
      else if data_size == 1
      then env.mem_write16 dst (if bswap then swap16 half.0 else half.0) half.1
      else env.mem_write32 dst (if bswap then swap32 word.0 else word.0) word.1

  -- `left` turns of the loop, with what the loop keeps: the size, the swap and the steps.
  unfoldable pub transfer_loop : ℕ → ℕ → Bool → ℕ → ℕ → ℕ → ℕ → System W → ℕ × (ℕ × System W)
  transfer_loop zero data_size bswap step_read step_write src dst m = (src, (dst, m))
  transfer_loop (suc left) data_size bswap step_read step_write src dst m =
      transfer_loop left data_size bswap step_read step_write (u32 (src + step_read))
        (u32 (dst + step_write)) (transfer_one data_size bswap src dst m)

  -- `TRANS_COUNT` without the mode bits of the RP2350.
  abbrev pub count_of : Channel → ℕ
  count_of c = if env.membus_rp2350_mode then bit_and c.trans_count 0x0FFFFFFF else c.trans_count

  -- What is added to the address of the writes after each turn.
  abbrev pub write_step : Channel → ℕ
  write_step c = if test c.ctrl (ctrl_incr_write env.membus_rp2350_mode) then step_of c else 0

  -- The loop with the parameters from CTRL.
  unfoldable pub transfer_all : Channel → System W → ℕ × (ℕ × System W)
  transfer_all c m =
      transfer_loop (count_of c) (data_size_of c) (test c.ctrl (ctrl_bswap env.membus_rp2350_mode))
        (read_step c) (write_step c) c.read_addr c.write_addr m

  -- IRQ_DMA_IRQ_0 and IRQ_DMA_IRQ_1 are 11 and 12.
  unfoldable pub signal_done : ℕ → System W → System W
  signal_done i m =
      let m1 = record m { dma = record m.dma { intr = bit_or m.dma.intr (1 << i) } } in
      let m2 = if test m1.dma.inte0 (1 << i) then env.nvic_signal_rp2350_irq 11 m1 else m1 in
      if test m2.dma.inte1 (1 << i) then env.nvic_signal_rp2350_irq 12 m2 else m2

  -- The channel has its final addresses and no transfers left.
  unfoldable pub store_final : ℕ → ℕ × (ℕ × System W) → System W
  store_final i out =
      let m = out.1.1 in
      record m {
        dma =
            set_channel i
              (record (m.dma.ch i) { read_addr = out.0; write_addr = out.1.0; trans_count = 0 })
              m.dma;
      }

  -- From the loop to the interrupt.
  unfoldable pub run_channel : ℕ → System W → System W
  run_channel i m =
      let done = store_final i (transfer_all (m.dma.ch i) m) in
      if not (test (done.dma.ch i).ctrl (ctrl_irq_quiet env.membus_rp2350_mode))
      then signal_done i done
      else done

  -- `dma_do_transfer`; `none` means that the fuel ran out.
  unfoldable pub do_transfer : ℕ → ℕ → System W → Option (System W)
  do_transfer zero i m = none
  do_transfer (suc fuel) i m =
      let c = m.dma.ch i in
      let out = run_channel i m in
      let chain_to = ctrl_chain_to env.membus_rp2350_mode (out.dma.ch i).ctrl in
      let rest = do_transfer fuel chain_to out in
      if not (test c.ctrl 1)
      then some m
      else if count_of c == 0
      then some m
      else if not (chain_to == i) && ltb chain_to dma_num_channels
      then rest
      else some out

  -- One call for each channel, and one.
  unfoldable pub dma_do_transfer : ℕ → System W → Option (System W)
  dma_do_transfer i m = do_transfer 17 i m
