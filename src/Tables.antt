-- ===== src/Tables.antt =====
-- Tables (src/table/legacy.rs).
pub mod Sizes
pub mod Counts
