-- ===== src/Membus.antt =====
-- The RAM behind the memory bus of src/membus.c.
pub mod Bytes
pub mod Access
pub mod Interface
mod Tests
