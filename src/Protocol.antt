-- ===== src/Protocol.antt =====
-- ptp/ptpd2/protocol.c: the states of a PTP port.
pub mod Defs
pub mod Enter
mod Tests
