-- ===== src/Dma.antt =====
-- The DMA controller of src/dma.c.
pub mod Channels
pub mod Registers
pub mod Chains
pub mod Copy
mod Tests
