-- ===== src/Bmc.antt =====
-- The best master clock algorithm, ptp/ptpd2/bmc.c.
pub mod Defs
pub mod Compare
pub mod Order
pub mod Rounds
pub mod Best
pub mod Delete
pub mod Full
pub mod Tests
pub mod Clock
pub mod Decision
pub mod Whole
pub mod Parent
pub mod Outcome
pub mod ClockTests
pub mod Interval
