-- ===== src/Msg.antt =====
-- ptp/ptpd2/dep/msg.c: the packing and unpacking of the PTP messages.
pub mod Octets
pub mod Header
pub mod Announce
pub mod Event
pub mod General
pub mod RoundTrip
pub mod Bounds
pub mod Stamps
pub mod Follow
mod Tests
