-- ===== src/Timer.antt =====
-- The timer of src/timer.c: its counter, its alarms and its registers.
pub mod Alarms
pub mod Counter
pub mod Wakeup
mod Tests
