-- ===== src/Sio.antt =====
-- The single-cycle IO block of src/membus.c, with the spinlocks and the FIFOs between the cores of
-- src/cpu.c.
pub mod Divider
pub mod Interp
pub mod Spinlock
pub mod Fifo
pub mod Queue
pub mod Locks
pub mod Division
pub mod Registers
mod Tests
