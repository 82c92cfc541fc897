-- ===== src/Foreign.antt =====
-- The data set of foreign masters, ptp/ptpd2/foreign.c.
pub mod Defs
pub mod Index
pub mod Find
pub mod Expire
pub mod Moves
pub mod Expiry
pub mod Insert
pub mod Tests
