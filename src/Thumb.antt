-- ===== src/Thumb.antt =====
-- The 16-bit Thumb instruction set of src/instructions.c and its dispatch in src/cpu.c.
pub mod State
pub mod Flags
pub mod Arith
pub mod Shift
pub mod Logic
pub mod Load
pub mod Block
pub mod Branch
pub mod System
pub mod Dispatch
pub mod Nzcv
pub mod AddWithCarry
pub mod Sums
pub mod Conditions
pub mod Calls
pub mod Reversal
pub mod Signs
pub mod Shifts
pub mod RegisterShifts
pub mod Ram
pub mod Pushed
pub mod Loaded
pub mod Stack
pub mod Returns
mod Tests
