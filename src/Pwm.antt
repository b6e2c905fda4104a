-- ===== src/Pwm.antt =====
-- The pulse width modulators of src/pwm.c.
pub mod Slices
pub mod Widths
pub mod Latches
mod Tests
