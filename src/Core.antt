-- ===== src/Core.antt =====
-- crates/splayed-core: row ranges and the algorithms on them.
pub mod Ranges
pub mod Lookup
pub mod Predicate
pub mod Scanner
pub mod IndexScan
pub mod Chunks
pub mod Field
mod Tests
