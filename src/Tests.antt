-- ===== src/Tests.antt =====
-- The theorems applied at concrete inputs, and runs of the definitions.
mod Numbers
mod Compiler
mod Collector
mod Strings
mod Patterns
mod Threads
mod Lines
mod Formats
mod Tracing
mod Sorting
mod Sizes
