-- ===== src/Code.antt =====
-- The code generator's output: src/lcode.rs. Instruction words, the lists of pending jumps that
-- are threaded through them, and the line table.
pub mod Word
pub mod Jumps
