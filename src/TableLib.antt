-- ===== src/TableLib.antt =====
-- The library `table` (src/builtin/table/mod.rs).
pub mod Sort
