-- ===== src/Timer.antt =====
-- ptp/ptpd2/dep/timer.c: the timers of a PTP port, and when they expire.
pub mod Defs
pub mod Expiry
mod Tests
