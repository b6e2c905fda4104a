-- ===== src/Exception.antt =====
-- Exception entry and return of src/cpu.c, with the predication state that they save and restore.
pub mod State
pub mod Predication
pub mod Entry
pub mod Exit
pub mod Frame
pub mod Unstack
pub mod Resume
pub mod RoundTrip
pub mod Preempt
pub mod Blocks
mod Tests
