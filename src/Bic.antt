-- ===== src/Bic.antt =====
-- src/sfptpd_bic.c: the choice of the best instance clock.
-- `Defs` has the data and the comparison, `Choose` the choice among an array of instances, and
-- `Order` shows that a comparison is a strict total order; `Best` draws the conclusions.
pub mod Defs
pub mod Order
pub mod Compare
pub mod Choose
pub mod Best
pub mod Policy
pub mod Manual
pub mod Tests
