-- ===== src/Format.antt =====
-- crates/splayed-format: the types, headers and in-memory structures of the file format.
pub mod Errors
pub mod Layout
pub mod DataType
pub mod TimeType
pub mod Encoding
pub mod Compression
pub mod FieldHeader
pub mod MetaHeader
pub mod SymIndexRecord
pub mod Bitmap
pub mod Column
mod Tests
pub mod Schema
