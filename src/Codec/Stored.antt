-- ===== src/Codec/Stored.antt =====
-- Compressors that store their input.
use stkoe_data.Base.{
  sym, ap, drop-append, length-le_bytes, ◌++◌, length, drop, le_bytes, some, ok, err, leb,
  if◌then◌else◌, arith,
}
use stkoe_data.Codec.Compression.{Backends, IsLossless}

abbrev pub stored : Backends
stored = record {
  zstd_compress = λ input level. ok input;
  zstd_frame_content_size = λ payload. some (length payload);
  zstd_decompress =
      λ payload capacity. if leb (length payload) capacity then ok payload else err "too small";
  zstd_decode_all = λ payload. ok payload;
  lz4_compress_prepend_size = λ input. le_bytes 4 (length input) ++ input;
  lz4_decompress_size_prepended = λ payload. ok (drop 4 payload);
}

pub stored-IsLossless : IsLossless stored
stored-IsLossless = record {
  content_size = λ input payload level size e s. ground arith;
  decompress_lem = λ input payload level capacity e s. ground arith;
  decode_all_lem = λ input payload level e. sym e;
  lz4_lem = λ input h.
      ap ok (drop-append 4 (le_bytes 4 (length input)) input (length-le_bytes 4 (length input)));
}
