-- ===== src/Core/Field/Create.antt =====
-- The writers of chunked FIELD files of crates/splayed-core/src/field_file.rs. A file that is
-- written is its bytes.
use stkoe_data.Base.{
  ℕ, ◌-◌, ◌*◌, ◌/◌, ◌%◌, ◌^◌, List, [], ◌∷◌, ◌++◌, length, Bool, true, false, Option, none, some,
  ok, err, panic, guard, ◌>>=◌, ◌>>◌, ◌==◌, ltb, if◌then◌else◌,
}
use stkoe_data.Format.DataType
use stkoe_data.Format.DataType.{DataType, size_of}
use stkoe_data.Format.Encoding.{plain}
use stkoe_data.Format.Compression
use stkoe_data.Format.Compression.{Compression}
use stkoe_data.Format.FieldHeader
use stkoe_data.Format.FieldHeader.{FieldHeader, new_uncompressed}
use stkoe_data.Format.Bitmap.{Bitmap, BitmapView, as_view, slice, to_packed_bytes}
use stkoe_data.Format.Column.{Column, column_length, column_null_count}
use stkoe_data.Codec.Errors.{Codec}
use stkoe_data.Codec.Chunk.{encode_chunk, as_u32}
use stkoe_data.Codec.Compression.{Backends}
use stkoe_data.Core.Lookup.{Core, codec, invalid, map_err, bytes_between}
use stkoe_data.Core.Chunks.{compute_chunk_boundaries}

abbrev pub map_codec : {A : Type 0} → Codec A → Core A
map_codec (ok a) = ok a
map_codec (err e) = err (codec e)
map_codec panic = panic

-- `new_uncompressed` with the compression and the length of the values.
unfoldable pub chunked_header : DataType → ℕ → ℕ → Bool → Compression → ℕ → FieldHeader
unfolding new_uncompressed
chunked_header data_type rows nulls has_validity compression data_length =
    let h = new_uncompressed data_type 1 (as_u32 rows) (as_u32 nulls) has_validity in
    record h { compression = Compression.id compression; data_length = data_length }

-- The validity bits of `take` rows from `lo` on, packed.
unfoldable pub packed_slice : Option BitmapView → ℕ → ℕ → Core (Option (List ℕ))
unfolding slice to_packed_bytes
packed_slice none lo take = ok none
packed_slice (some b) lo take = do
  v ← map_err (slice b lo take)
  bytes ← map_err (to_packed_bytes v)
  ok (some bytes)

-- `as_ref().map(as_view)`
unfoldable pub view_of : Option Bitmap → Core (Option BitmapView)
unfolding as_view
view_of none = ok none
view_of (some b) = map_err (as_view b) >>= λ v. ok (some v)

-- The number of bytes of a row.
unfoldable pub per_row : Column → ℕ
unfolding column_length
per_row col = let rows = column_length col in if ltb 0 rows then length col.values / rows else 0

module _ (b : Backends) (compression : Compression) (data_type : DataType) where
  unfoldable pub write_chunk : List ℕ → Option BitmapView → ℕ → ℕ × ℕ → Core (List ℕ)
  unfolding packed_slice encode_chunk
  write_chunk values bits width range = do
    let take = range.1 - range.0
    part ← bytes_between values (range.0 * width) (range.1 * width)
    validity ← packed_slice bits range.0 take
    map_codec (encode_chunk b plain compression data_type part validity take)

  unfoldable pub write_chunks : List ℕ → Option BitmapView → ℕ → List (ℕ × ℕ) → Core (List ℕ)
  unfolding write_chunk
  write_chunks values bits width [] = ok []
  write_chunks values bits width (range ∷ boundaries) = do
    chunk ← write_chunk values bits width range
    rest ← write_chunks values bits width boundaries
    ok (chunk ++ rest)

  unfoldable pub create_field_file_chunked_data : Column → List (ℕ × ℕ) → Core (List ℕ)
  unfolding write_chunks view_of per_row chunked_header column_null_count column_length
  create_field_file_chunked_data col boundaries = do
    guard (DataType.id col.data_type == DataType.id data_type) invalid
    bits ← view_of col.validity
    chunks ← write_chunks col.values bits (per_row col) boundaries
    nulls ← map_err (column_null_count col)
    ok (
        FieldHeader.to_bytes
          (chunked_header data_type (column_length col) nulls false compression (length col.values))
        ++ chunks)

  -- All rows are NULL: only the header is written.
  unfoldable pub create_field_file_chunked_all_null : ℕ → List ℕ
  unfolding chunked_header size_of
  create_field_file_chunked_all_null rows =
      FieldHeader.to_bytes
        (chunked_header data_type rows rows true compression (rows * size_of data_type % 2 ^ 64))

-- The initial data of a field. A stream is not accepted for chunks.
pub data FieldInit : Type 0 where
  with_length : ℕ → FieldInit
  with_data : Column → FieldInit
  with_stream : FieldInit

unfoldable pub create_field_file_chunked :
    Backends → DataType → FieldInit → Compression → Option (List ℕ) → Core (List ℕ)
unfolding create_field_file_chunked_data create_field_file_chunked_all_null
create_field_file_chunked b data_type with_stream compression chunk_offsets = err invalid
create_field_file_chunked b data_type (with_data col) compression chunk_offsets = do
  boundaries ← compute_chunk_boundaries (column_length col) chunk_offsets
  create_field_file_chunked_data b compression data_type col boundaries
create_field_file_chunked b data_type (with_length n) compression chunk_offsets = do
  boundaries ← compute_chunk_boundaries n chunk_offsets
  ok (create_field_file_chunked_all_null b compression data_type n)
