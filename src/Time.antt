-- ===== src/Time.antt =====
-- src/sfptpd_time.c and the integer functions of src/include/sfptpd_time.h.
pub mod Defs
pub mod Value
pub mod Difference
pub mod Convert
pub mod Nanos
mod Tests
