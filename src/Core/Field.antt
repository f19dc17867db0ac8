-- ===== src/Core/Field.antt =====
-- crates/splayed-core/src/field_file.rs: FIELD files.
pub mod Eval
pub mod Create
pub mod Open
pub mod Stored
pub mod Write
mod Tests
pub mod Runs
pub mod Scan
