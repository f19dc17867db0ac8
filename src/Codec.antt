-- ===== src/Codec.antt =====
-- crates/splayed-codec: encodings, compression and the chunk layout.
pub mod Errors
pub mod Plain
pub mod Delta
pub mod Rle
pub mod Bitpack
pub mod Encoding
pub mod Compression
pub mod Chunk
pub mod Stored
mod Tests
