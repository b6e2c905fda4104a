-- ===== src/Uart.antt =====
-- The serial ports of src/uart.c.
pub mod Ports
pub mod Registers
mod Rings
mod Kept
pub mod Queue
mod Tests
