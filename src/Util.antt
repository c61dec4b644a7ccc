-- ===== src/Util.antt =====
-- The helpers of lib/util.c: dates, numbers in texts, timeouts, 64-bit division.
pub mod Calendar
pub mod Number
pub mod Timeout
pub mod Division
