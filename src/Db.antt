-- ===== src/Db.antt =====
-- The in-memory tables of records, sfptpd_db.c.
pub mod Store
pub mod Selection
pub mod Table
pub mod Array
pub mod Linked
pub mod Spelling
pub mod Fields
pub mod Visit
pub mod Query
pub mod Delete
pub mod Refine
pub mod Stores
pub mod Tests
