-- ===== src/Core/Field/Open.antt =====
-- `open_field_file` of crates/splayed-core/src/field_file.rs on the bytes of the file.
use stkoe_data.Base.{
  ℕ, zero, suc, ◌+◌, ◌-◌, ◌*◌, List, [], ◌∷◌, ◌++◌, length, take, drop, replicate, Bool, true,
  false, ◌&&◌, Option, none, some, ok, guard, assert, ◌>>=◌, ◌>>◌, ◌==◌, leb, ltb, if◌then◌else◌,
  map,
}
use stkoe_data.Format.Layout.{header_size, validity_size}
use stkoe_data.Format.DataType
use stkoe_data.Format.DataType.{DataType, size_of}
use stkoe_data.Format.Encoding
use stkoe_data.Format.Encoding.{Encoding}
use stkoe_data.Format.Compression
use stkoe_data.Format.Compression.{Compression}
use stkoe_data.Format.FieldHeader
use stkoe_data.Format.FieldHeader.{FieldHeader, is_chunked}
use stkoe_data.Format.Bitmap.{Bitmap, view, zeros, copy_bits_from, set_range, null_count}
use stkoe_data.Codec.Chunk
use stkoe_data.Codec.Chunk.{ChunkHeader, chunk_header_size, decode_chunk, as_u32}
use stkoe_data.Codec.Compression.{Backends}
use stkoe_data.Core.Lookup.{Core, invalid_state, io, map_err, bytes_between}
use stkoe_data.Core.Chunks.{uniform}
use stkoe_data.Core.Field.Create.{map_codec}

pub data Mode : Type 0 where
  read write : Mode

pub record Working : Type 0 where
  pub values : List ℕ
  pub validity : Option Bitmap

-- The bytes of the map stand for `backing`, `none` for `Backing::Empty`.
pub record FieldHandle : Type 0 where
  pub header : FieldHeader
  pub mode : Mode
  pub backing : Option (List ℕ)
  pub chunk_rows : List ℕ
  pub chunk_ends : List ℕ
  pub working : Option Working
  pub modified : Bool

-- `dst[from..to].copy_from_slice(src)`
unfoldable pub copy_from_slice : List ℕ → ℕ → ℕ → List ℕ → Core (List ℕ)
copy_from_slice dst from to src = do
  assert (leb from to)
  assert (leb to (length dst))
  assert (length src == to - from)
  ok (take from dst ++ (src ++ drop to dst))

-- The validity of a chunk is put behind that of the chunks before.
unfoldable pub merge_validity : Option Bitmap → Option (List ℕ) → ℕ → ℕ → Core (Option Bitmap)
unfolding view copy_bits_from set_range
merge_validity (some dst) (some src) decoded_rows rows = do
  v ← map_err (view src 0 rows)
  (dst', old, new') ← map_err (copy_bits_from dst decoded_rows v rows)
  ok (some dst')
merge_validity (some dst) none decoded_rows rows = do
  (dst', old) ← map_err (set_range dst decoded_rows rows true)
  ok (some dst')
merge_validity none chunk_validity decoded_rows rows = ok none

module _ (b : Backends) where
  -- The loop of `decode_working`, with the number of decoded rows. A round passes a header at
  -- least.
  unfoldable pub decode_loop :
      Encoding → Compression → DataType → List ℕ → ℕ → ℕ → Working → ℕ → Core (Working × ℕ)
  unfolding copy_from_slice merge_validity decode_chunk
  decode_loop encoding compression dt bytes zero pos work decoded_rows = ok (work, decoded_rows)
  decode_loop encoding compression dt bytes (suc fuel) pos work decoded_rows =
      if ltb pos (length bytes)
      then (do
        hdr ← map_codec (Chunk.from_bytes (drop pos bytes))
        let chunk_end = pos + chunk_header_size + hdr.payload_len
        chunk ← bytes_between bytes pos chunk_end
        (values, validity, rows) ← map_codec (decode_chunk b encoding compression dt chunk)
        values' ←
            copy_from_slice work.values (decoded_rows * size_of dt)
              ((decoded_rows + rows) * size_of dt) values
        validity' ← merge_validity work.validity validity decoded_rows rows
        decode_loop encoding compression dt bytes fuel chunk_end
            (record { values = values'; validity = validity' }) (decoded_rows + rows))
      else ok (work, decoded_rows)

  unfoldable pub decode_working : List ℕ → FieldHeader → Core Working
  unfolding decode_loop size_of zeros
  decode_working bytes header = do
    dt ← map_err (DataType.from_id header.data_type)
    encoding ← map_err (Encoding.from_id header.encoding)
    compression ← map_err (Compression.from_id header.compression)
    let values = replicate (header.row_count * size_of dt) 0
    let bits =
        if ltb 0 (validity_size header.row_count) then some (zeros header.row_count) else none
    (work, decoded_rows) ←
        decode_loop encoding compression dt bytes (length bytes) header_size
          (record { values = values; validity = bits }) 0
    guard (decoded_rows == header.row_count) invalid_state
    ok work

-- The rows of the chunks, and the position behind the last.
unfoldable pub chunk_rows_loop : List ℕ → ℕ → ℕ → Core (List ℕ × ℕ)
chunk_rows_loop bytes zero pos = ok ([], pos)
chunk_rows_loop bytes (suc fuel) pos =
    if ltb pos (length bytes)
    then (do
      hdr ← map_codec (Chunk.from_bytes (drop pos bytes))
      (rows, end) ← chunk_rows_loop bytes fuel (pos + chunk_header_size + hdr.payload_len)
      ok (hdr.rows ∷ rows, end))
    else ok ([], pos)

-- `scan`: the sums of the rows up to each chunk.
unfoldable pub running_sums : ℕ → List ℕ → List ℕ
running_sums acc [] = []
running_sums acc (r ∷ rows) = (acc + r) ∷ running_sums (acc + r) rows

-- The null count of the decoded bits.
unfoldable pub recount : Option Bitmap → Core ℕ
unfolding null_count
recount none = ok 0
recount (some bits) = map_err (null_count bits) >>= λ n. ok (as_u32 n)

-- The chunk groups of a header-only file.
abbrev default_rows : ℕ → List ℕ
default_rows rows = map (λ r. r.1 - r.0) (uniform rows rows 0)

module _ (b : Backends) where
  -- The rows of the chunks and the working values of a file that is not header-only.
  unfoldable pub open_chunks : List ℕ → FieldHeader → Core (List ℕ × Option Working)
  unfolding is_chunked decode_working chunk_rows_loop
  open_chunks bytes header =
      if is_chunked header
      then (do
        (rows, pos) ← chunk_rows_loop bytes (length bytes) header_size
        guard (pos == length bytes) invalid_state
        work ← decode_working b bytes header
        ok (rows, some work))
      else ok ([], none)

  unfoldable pub open_field_file : List ℕ → Mode → Core FieldHandle
  unfolding open_chunks recount running_sums uniform zeros size_of is_chunked
  open_field_file bytes mode = do
    guard (leb header_size (length bytes)) io
    header ← map_err (FieldHeader.from_bytes (take header_size bytes))
    let is_header_only = (length bytes == header_size) && ltb 0 header.row_count
    if is_header_only
        then (do
          dt ← map_err (DataType.from_id header.data_type)
          let rows = header.row_count
          let chunk_rows = if is_chunked header then default_rows rows else []
          ok (record {
            header = header;
            mode = mode;
            backing = some bytes;
            chunk_rows = chunk_rows;
            chunk_ends = running_sums 0 chunk_rows;
            working =
                some (record {
                  values = replicate (rows * size_of dt) 0;
                  validity = some (zeros rows);
                });
            modified = false;
          }))
        else (do
          (chunk_rows, working) ← open_chunks bytes header
          nulls ← elim working [ none ↦ ok header.null_count | some w ↦ recount w.validity ]
          ok (record {
            header = record header { null_count = nulls };
            mode = mode;
            backing = some bytes;
            chunk_rows = chunk_rows;
            chunk_ends = running_sums 0 chunk_rows;
            working = working;
            modified = false;
          }))
