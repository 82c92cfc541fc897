-- ===== src/Acl.antt =====
-- ptp/ptpd2/dep/ipv4_acl.c: the lists of networks from which the PTP daemon takes messages.
pub mod Defs
pub mod Parse
pub mod Bits
pub mod Prefix
pub mod Matching
pub mod Check
pub mod Memory
pub mod Verdict
pub mod Octets
mod Tests
