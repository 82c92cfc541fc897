-- ===== src/Multicast.antt =====
-- The multicast service between threads, sfptpd_multicast.c.
pub mod Defs
pub mod Send
pub mod Groups
pub mod Registry
pub mod Refine
pub mod Dests
pub mod Delivery
pub mod Tests
