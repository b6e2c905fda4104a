-- ===== src/Nvic.antt =====
-- The interrupt controller of src/nvic.c: its state, its requests, SysTick, memory protection and
-- the registers.
pub mod State
pub mod Irq
pub mod Systick
pub mod Turns
pub mod Ticking
pub mod Scanning
pub mod Choice
pub mod Pending
pub mod Registers
pub mod Protection
pub mod Writes
pub mod Requests
pub mod Kept
pub mod Lines
pub mod Regions
mod Tests
