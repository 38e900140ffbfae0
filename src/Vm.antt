-- ===== src/Vm.antt =====
-- The virtual machine's own helpers (src/vm/mod.rs), one child for each group.
pub mod Arith
pub mod Convert
pub mod ForLoop
