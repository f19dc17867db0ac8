-- ===== src/Codec/Tests.antt =====
-- Concrete columns through the codec, and the theorems applied to them.

use stkoe_data.Base.{
  le_bytes, from_le, ℕ, ◌+◌, ◌*◌, ◌≤◌, ◌≡◌, ◌^◌, refl, inl, inr, List, [], ◌∷◌, ◌++◌, length, take,
  some, ok, panic, arith, IsBytes, ◌>>=◌,
}
use stkoe_data.Format.DataType.{int16, size_of, IsWidth}
use stkoe_data.Format.Encoding.{delta, rle}
use stkoe_data.Format.Compression.{zstd}
use stkoe_data.Codec.Delta
use stkoe_data.Codec.Delta.Laws.{decode-encode_delta}
use stkoe_data.Codec.Rle
use stkoe_data.Codec.Rle.Laws.{decode-encode_rle}
use stkoe_data.Codec.Rle.Total.{decode-panic, length-decode}
use stkoe_data.Codec.Bitpack
use stkoe_data.Codec.Bitpack.Laws.{decode-encode_bitpack}
use stkoe_data.Codec.Encoding.{encode_values, decode_values}
use stkoe_data.Codec.Encoding.Laws.{decode_values-encode_values}
use stkoe_data.Codec.Encoding.Sizes.{length-encode_values-le}
use stkoe_data.Codec.Compression.{compress}
use stkoe_data.Codec.Chunk.{ChunkHeader, to_bytes, from_bytes, encode_chunk, decode_chunk}
use stkoe_data.Codec.Chunk.Header.{from_bytes-to_bytes}
use stkoe_data.Codec.Chunk.Laws.{decode_chunk-encode_chunk}
use stkoe_data.Codec.Chunk.Truncated.{IsTruncated, decode_chunk-take}
use stkoe_data.Codec.Stored.{stored, stored-IsLossless}

-- The column 3, -1, -1 of an `Int16` field.
abbrev column : List ℕ
column = 3 ∷ 0 ∷ 255 ∷ 255 ∷ 255 ∷ 255 ∷ []

column-IsBytes : IsBytes column
column-IsBytes = ground arith

two_wide : IsWidth (size_of int16)
unfolding size_of
two_wide = inr (inl refl)

column_sized : length column ≡ 3 * size_of int16
unfolding size_of
column_sized = refl

abbrev runs : List ℕ
runs = 1 ∷ 0 ∷ 0 ∷ 0 ∷ 3 ∷ 0 ∷ 2 ∷ 0 ∷ 0 ∷ 0 ∷ 255 ∷ 255 ∷ []

encoded_runs : encode_values rle int16 column 3 ≡ ok runs
unfolding encode_values Rle.encode size_of le_bytes
encoded_runs = refl

decoded_runs : Rle.decode int16 runs 3 ≡ ok column
unfolding Rle.decode size_of from_le
decoded_runs = refl

abbrev chunk : List ℕ
chunk = 3 ∷ 0 ∷ 0 ∷ 0 ∷ 12 ∷ 0 ∷ 0 ∷ 0 ∷ 13 ∷ 0 ∷ 0 ∷ 0 ∷ (runs ++ (5 ∷ []))

chunk_is : encode_chunk stored rle zstd int16 column (some (5 ∷ [])) 3 ≡ ok chunk
unfolding encode_chunk encode_values Rle.encode size_of compress to_bytes le_bytes
chunk_is = refl

decode-encode_delta_example :
    (Delta.encode int16 column >>= λ payload. Delta.decode int16 payload 3) ≡ ok column
decode-encode_delta_example =
    decode-encode_delta int16 column 3 two_wide column_sized column-IsBytes

decode-encode_rle_example :
    (Rle.encode int16 column >>= λ payload. Rle.decode int16 payload 3) ≡ ok column
unfolding size_of
decode-encode_rle_example =
    decode-encode_rle int16 column 3 (omega arith) column_sized (omega arith)

too_many_rows : Rle.decode int16 column (2 ^ 62) ≡ panic
unfolding size_of
too_many_rows = (decode-panic int16 column (2 ^ 62)).1 (omega arith)

length-decode_example : length column ≡ 3 * size_of int16
length-decode_example = length-decode int16 runs 3 decoded_runs

decode-encode_bitpack_example :
    (Bitpack.encode int16 column >>= λ payload. Bitpack.decode int16 payload 3) ≡ ok column
decode-encode_bitpack_example =
    decode-encode_bitpack int16 column 3 two_wide column_sized column-IsBytes

decode_values-encode_values_example :
    (encode_values delta int16 column 3 >>= λ payload. decode_values delta int16 payload 3)
    ≡ ok column
decode_values-encode_values_example =
    decode_values-encode_values delta int16 column 3 two_wide column-IsBytes (omega arith)
      column_sized

length-encode_values-le_example : length runs ≤ 12 * 3 + 1
length-encode_values-le_example =
    length-encode_values-le int16 column 3 two_wide column-IsBytes column_sized rle runs
      encoded_runs

abbrev header : ChunkHeader
header = record { rows = 3; values_len = 12; payload_len = 13 }

from_bytes-to_bytes_example : from_bytes (to_bytes header ++ column) ≡ ok header
from_bytes-to_bytes_example =
    from_bytes-to_bytes header column (record {
      rows_fit = omega arith;
      values_len_fit = omega arith;
      payload_len_fit = omega arith;
    })

decode_chunk-encode_chunk_example :
    decode_chunk stored rle zstd int16 (chunk ++ column) ≡ ok (column, some (5 ∷ []), 3)
decode_chunk-encode_chunk_example =
    decode_chunk-encode_chunk stored rle zstd int16 column (some (5 ∷ [])) 3 chunk column
      stored-IsLossless two_wide column-IsBytes (omega arith) (inl (omega arith)) (omega arith)
      (λ encoded e. tt) chunk_is

decode_chunk-take_example : IsTruncated (decode_chunk stored rle zstd int16 (take 24 chunk))
decode_chunk-take_example =
    decode_chunk-take stored rle zstd int16 column (some (5 ∷ [])) 3 chunk 24 chunk_is (omega arith)
      (omega arith)
