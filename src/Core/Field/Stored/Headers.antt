-- ===== src/Core/Field/Stored/Headers.antt =====
-- The header of a chunked file.
use stkoe_data.Base.{
  ℕ, ◌^◌, ◌<◌, ◌≡◌, ◌≢◌, refl, sym, ap, ◌∙◌, List, [], ◌++◌, Bool, true, ok, length, le_bytes, take,
  take-append, append-nil, arith,
}
use stkoe_data.Format.DataType
use stkoe_data.Format.DataType.{DataType}
use stkoe_data.Format.Encoding
use stkoe_data.Format.Encoding.{plain}
use stkoe_data.Format.Compression
use stkoe_data.Format.Compression.{Compression}
use stkoe_data.Format.FieldHeader.{
  FieldHeader, to_bytes, from_bytes, validate, new_uncompressed, is_chunked,
}
use stkoe_data.Format.FieldHeader.Laws.{Fits, fresh-Fits, from_bytes-to_bytes_field}
use stkoe_data.Codec.Chunk.{as_u32}
use stkoe_data.Core.Field.Create.{chunked_header}

module _ (dt : DataType) (rows nulls : ℕ) (has_validity : Bool) (compression : Compression)
    (data_length : ℕ) where
  abbrev pub header : FieldHeader
  header = chunked_header dt rows nulls has_validity compression data_length

  header-Fits : data_length < 2 ^ 64 → Fits header
  unfolding chunked_header new_uncompressed Compression.id
  header-Fits small =
      let f =
        fresh-Fits dt 1 (as_u32 rows) (as_u32 nulls) has_validity (omega arith) (omega arith)
          (omega arith) in
      record {
        magic = f.magic;
        version = f.version;
        flags = f.flags;
        data_type = f.data_type;
        encoding = f.encoding;
        compression = ground arith;
        reserved0 = f.reserved0;
        generation = f.generation;
        row_count = f.row_count;
        null_count = f.null_count;
        reserved1 = f.reserved1;
        reserved2 = f.reserved2;
        data_length = small;
        validity_offset = f.validity_offset;
        reserved3 = f.reserved3;
      }

  header-valid : validate header ≡ ok tt
  unfolding chunked_header new_uncompressed validate Encoding.id Encoding.from_id
  header-valid = rw (DataType.from_id-id dt, Compression.from_id-id compression) refl

  pub from_bytes-chunked_header :
      (rest : List ℕ) → data_length < 2 ^ 64 → from_bytes (to_bytes header ++ rest) ≡ ok header
  from_bytes-chunked_header rest small =
      from_bytes-to_bytes_field header rest (header-Fits small) ∙ rw header-valid refl

  pub length-header : length (to_bytes header) ≡ 64
  unfolding to_bytes le_bytes
  length-header = refl

  pub from_bytes-file :
      (rest : List ℕ)
      → data_length < 2 ^ 64
      → from_bytes (take 64 (to_bytes header ++ rest)) ≡ ok header
  from_bytes-file rest small =
      ap from_bytes
        (take-append 64 (to_bytes header) rest length-header ∙ sym (append-nil (to_bytes header)))
      ∙ from_bytes-chunked_header [] small

pub chunked_header-is_chunked :
    (dt : DataType) (rows nulls : ℕ) (has_validity : Bool) (compression : Compression)
    (data_length : ℕ)
    → compression ≢ Compression.none
    → is_chunked (chunked_header dt rows nulls has_validity compression data_length) ≡ true
unfolding chunked_header new_uncompressed is_chunked Encoding.id Compression.id
chunked_header-is_chunked dt rows nulls v Compression.none n c = absurd (c refl)
chunked_header-is_chunked dt rows nulls v Compression.zstd n c = refl
chunked_header-is_chunked dt rows nulls v Compression.lz4 n c = refl
