-- ===== src/Engine.antt =====
-- The engine, sfptpd_engine.c: which sync instance is selected.
pub mod Defs
pub mod Control
pub mod Change
pub mod Holdoff
pub mod Tests
