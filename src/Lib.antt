-- ===== src/Lib.antt =====
-- Models and proofs for picoemu, an emulator of the RP2040 and RP2350 microcontrollers in C.
--
-- The program fetches a 16-bit Thumb instruction, picks a handler from a table of 256 entries by its
-- high byte (src/cpu.c) and runs the handler (src/instructions.c), which works on the global `cpu` and
-- calls the memory bus (src/membus.c). The bus passes each address on to memory or to a device: the
-- single-cycle IO block of src/membus.c, the clock of src/rtc.c, the timer of src/timer.c and others.
-- The main loop calls the devices' tick functions.
--
-- Base: native numbers, fixed-width casts, lists, bit operations, the lowest set bit,
--   and integers.
-- Thumb: the 16-bit instructions. State is `cpu_state_t` of include/emulator.h with `pc_updated`,
--   `m33_basepri` and the sleep flags. Flags, Arith, Shift, Logic, Load, Block, Branch and System have
--   one function for each handler of src/instructions.c, by its name; those that stay in the register
--   file are functions on `Cpu`, the others on `Machine`. Dispatch is `init_dispatch_table` with the
--   secondary dispatchers of src/cpu.c. Memory, exceptions and semihosting are the record `Env`: its
--   functions return the changed world, since a read can change a device. Nzcv, AddWithCarry, Sums,
--   Shifts, RegisterShifts, Conditions, Calls, Reversal, Signs, Ram, Pushed, Loaded, Stack and
--   Returns hold
--   the proofs. The interface `IsRam` says what the block transfers need of the memory.
-- Thumb32: the 32-bit instructions of src/thumb32.c, apart from the vector, coprocessor and
--   floating-point ones. Operand has the expanded constants and the shifted registers, Alu the data
--   processing, Branches BL, the wide branches and the table branches, Transfer the loads and stores.
--   Dsp, Multiply and Fields have the instructions of `t32_misc`, one function each; Misc tries their
--   patterns in the code's order. Step is `thumb32_step`: the decoders that are left out, the exclusive
--   monitor and the answer of TT are the record `StepEnv`. Decode, Constants, Sums,
--   Insertion and BitFields hold the proofs.
-- Rtc: the clock of src/rtc.c. Clock has its registers and its tick; the nested tests of
--   `rtc_advance_second` are one function for each field that overflows. Calendar, Ticks and Setup
--   hold the proofs; Gregorian is the calendar by counting days, without the code's rules.
-- Sio: the single-cycle IO block of src/membus.c with the spinlocks and the FIFOs of src/cpu.c.
--   Divider, Interp, Spinlock and Fifo are its parts, Registers its read and write functions; the pins,
--   the boot ROM's handshake and the interrupt controller are parameters. Locks, Division and Queue
--   hold the proofs.
-- Timer: the timer of src/timer.c. Alarms has its registers, its tick and the time to the next alarm;
--   the interrupt controller is a parameter. Counter and Wakeup hold the proofs.
-- Nvic: the interrupt controller of src/nvic.c, with include/nvic.h. State has `nvic_state_t`,
--   `systick_state_t` and the rest of its globals, Irq the requests and their choice, Systick the timer,
--   Protection the memory protection unit, the attribution and the faults, Registers and Writes the
--   registers at their addresses. What acts on the active core alone is a function on that core's state;
--   `on_nvic` applies it. Waking the cores and the latency profiling are parameters. Scanning, Choice and
--   Pending hold the proofs on the choice of an interrupt, Turns and Ticking those on SysTick, Requests
--   and Kept those on the invariant, Regions those on memory protection, and Lines that on
--   the map of the RP2350's interrupts.
-- Exception: entry to and return from exceptions, and the If-Then blocks, of src/cpu.c. `Core` is the
--   active core with its nesting stacks. Entry and Exit have the steps in the order of the code; the
--   memory bus, which also reaches the interrupt controller, the exclusive monitor and the threads are
--   the record `ExceptionEnv`. Predication is `it_check_skip` with `t32_check_cond` of src/thumb32.c.
--   Frame, Unstack, Resume, RoundTrip, Preempt and Blocks hold the proofs; `IsStackRam` says what they
--   need of the memory.
-- Membus: the RAM behind the memory bus of src/membus.c. Access has the functions of the bus as far as
--   they reach the RAM; what they do before and behind is the record `BusEnv`. Bytes has the numbers of
--   several bytes in an array; Interface fills `IsRam`, which Thumb.Stack and Thumb.Returns take.
-- Pwm: the pulse width modulators of src/pwm.c. Slices has the registers in both layouts; the
--   interrupt controller is a parameter. Widths and Latches hold the proofs.
-- Dma: the DMA controller of src/dma.c. Channels has the transfer engine, Registers the registers in
--   their four layouts. The memory bus, which can reach the controller again, and the interrupt
--   controller are the record `DmaEnv`. Chains and Copy hold the proofs; `KeepsDma` says that only
--   accesses to its own addresses change the controller, `IsCopyRam` what copying needs of the memory.
-- Uart: the serial ports of src/uart.c. Ports has the receive FIFO, the interrupts and the tick,
--   Registers the registers; the interrupt controller and where a sent byte goes are parameters. Rings,
--   Kept and Queue hold the proofs.
--
-- Numbers are the bits of the C integers; additions that can wrap have their remainder written out.
-- The `while` of `rtc_tick` has as fuel the quotient of the microseconds by a million and one more,
-- one for each turn and one for the last test. The loop of `systick_tick` has five turns: at zero, to the
-- next event, past the full periods, the last period, and the last test. The loop over the set bits of a
-- word has 32, one for each bit. A call of `dma_do_transfer` has 17 turns, one for each
-- channel that still has transfers left and one for the last. The `for` loops run on their count.
--
-- Not modelled: debug output; the fetch, the caches and the compiled blocks of src/cpu.c; the vector,
-- coprocessor and floating-point instructions of src/thumb32.c; the RISC-V core; the memory bus apart
-- from its RAM and the SIO block; every other device, the network, the file systems and the tools.
pub mod Base
pub mod Thumb
pub mod Thumb32
pub mod Rtc
pub mod Sio
pub mod Timer
pub mod Nvic
pub mod Exception
pub mod Membus
pub mod Pwm
pub mod Dma
pub mod Uart
