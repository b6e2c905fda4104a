-- ===== src/Rtc.antt =====
-- The real-time clock of src/rtc.c: the clock and its registers, and the calendar that it keeps.
pub mod Clock
mod Gregorian
pub mod Calendar
pub mod Ticks
pub mod Setup
mod Tests
