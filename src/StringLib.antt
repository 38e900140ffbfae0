-- ===== src/StringLib.antt =====
-- The string library, src/builtin/string.
pub mod Pattern
pub mod Position
pub mod Find
pub mod Pack
