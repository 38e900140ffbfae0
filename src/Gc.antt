-- ===== src/Gc.antt =====
-- The garbage collector (src/gc/mod.rs): the mark byte of an object, and the sweep of a cycle.
pub mod Mark
pub mod Sweep
pub mod Trace
pub mod Collect
