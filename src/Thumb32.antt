-- ===== src/Thumb32.antt =====
-- The 32-bit Thumb instructions of src/thumb32.c.
pub mod Operand
pub mod Alu
pub mod Branches
pub mod Transfer
pub mod Dsp
pub mod Multiply
pub mod Fields
pub mod Misc
pub mod Step
mod Decode
mod Insertion
pub mod BitFields
pub mod Constants
pub mod Sums
mod Tests
