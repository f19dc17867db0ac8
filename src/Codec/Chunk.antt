-- ===== src/Codec/Chunk.antt =====
-- crates/splayed-codec/src/chunk.rs: `header | compression(encoding(values) || validity)`.
pub mod Header
pub mod Laws
pub mod Truncated
pub mod Framed
use stkoe_data.Base.{
  ℕ, zero, suc, ◌+◌, ◌-◌, ◌*◌, ◌%◌, ◌^◌, List, [], ◌∷◌, ◌++◌, length, take, drop, le_bytes, from_le,
}
use stkoe_data.Base.{ok, err, guard, Option, none, some, ◌>>=◌, ◌>>◌, ◌==◌, leb, if◌then◌else◌}
use stkoe_data.Format.Layout.{validity_size}
use stkoe_data.Format.DataType.{DataType, size_of}
use stkoe_data.Format.Encoding.{Encoding}
use stkoe_data.Format.Compression.{Compression}
use stkoe_data.Codec.Errors.{Codec, row_count_mismatch, truncated, corrupt}
use stkoe_data.Codec.Encoding.{encode_values, decode_values}
use stkoe_data.Codec.Compression.{Backends, compress, decompress}

abbrev pub chunk_header_size : ℕ
chunk_header_size = 12

pub record ChunkHeader : Type 0 where
  pub rows : ℕ
  pub values_len : ℕ
  pub payload_len : ℕ

unfoldable pub to_bytes : ChunkHeader → List ℕ
to_bytes h = le_bytes 4 h.rows ++ (le_bytes 4 h.values_len ++ le_bytes 4 h.payload_len)

unfoldable pub from_bytes : List ℕ → Codec ChunkHeader
from_bytes bytes = do
  guard (leb chunk_header_size (length bytes)) (truncated chunk_header_size (length bytes))
  ok (record {
    rows = from_le (take 4 bytes);
    values_len = from_le (take 4 (drop 4 bytes));
    payload_len = from_le (take 4 (drop 8 bytes));
  })

-- `as u32`
abbrev pub as_u32 : ℕ → ℕ
as_u32 n = n % 2 ^ 32

-- The bits behind the encoded values.
abbrev pub validity_bytes : Option (List ℕ) → List ℕ
validity_bytes none = []
validity_bytes (some bits) = bits

check_validity : Option (List ℕ) → ℕ → Codec (Unit {0})
check_validity none rows = ok tt
check_validity (some bits) rows =
    guard (length bits == validity_size (as_u32 rows))
      (corrupt "validity byte length does not match rows")

-- The validity region of a decompressed payload: `rest` is what follows the values.
split_validity : List ℕ → ℕ → Codec (Option (List ℕ))
split_validity rest rows =
    if length rest == 0
    then ok none
    else if length rest == validity_size rows
    then ok (some rest)
    else err (corrupt "validity bit length does not match rows")

module _ (b : Backends) where
  unfoldable pub encode_chunk :
      Encoding → Compression → DataType → List ℕ → Option (List ℕ) → ℕ → Codec (List ℕ)
  unfolding check_validity
  encode_chunk encoding compression data_type values validity rows = do
    let expected = rows * size_of data_type
    guard (length values == expected) (row_count_mismatch expected (length values))
    check_validity validity rows
    encoded ← encode_values encoding data_type values rows
    let raw = encoded ++ validity_bytes validity
    payload ← compress b compression raw
    let header : ChunkHeader = record {
      rows = as_u32 rows;
      values_len = as_u32 (length raw - length (validity_bytes validity));
      payload_len = as_u32 (length payload);
    }
    ok (to_bytes header ++ payload)

  unfoldable pub decode_chunk :
      Encoding → Compression → DataType → List ℕ → Codec (List ℕ × Option (List ℕ) × ℕ)
  unfolding split_validity
  decode_chunk encoding compression data_type chunk = do
    header ← from_bytes chunk
    let needed = chunk_header_size + header.payload_len
    guard (leb needed (length chunk)) (truncated needed (length chunk))
    raw ← decompress b compression (take header.payload_len (drop chunk_header_size chunk))
    guard (leb header.values_len (length raw))
        (corrupt "decompressed payload shorter than values_len")
    values ← decode_values encoding data_type (take header.values_len raw) header.rows
    validity ← split_validity (drop header.values_len raw) header.rows
    ok (values, validity, header.rows)
