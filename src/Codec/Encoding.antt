-- ===== src/Codec/Encoding.antt =====
-- crates/splayed-codec/src/encoding.rs: the choice among the encodings.
pub mod Laws
pub mod Sizes
use stkoe_data.Base.{ℕ, ◌*◌, List, length, guard, ◌>>=◌, ◌>>◌, ◌==◌}
use stkoe_data.Format.DataType.{DataType, size_of}
use stkoe_data.Format.Encoding.{Encoding, plain, delta, rle, bitpack}
use stkoe_data.Codec.Errors.{Codec, row_count_mismatch}
use stkoe_data.Format.Compression.{Compression}
use stkoe_data.Codec.Compression.{Backends, compress}
use stkoe_data.Codec.Plain
use stkoe_data.Codec.Delta
use stkoe_data.Codec.Rle
use stkoe_data.Codec.Bitpack

unfoldable pub encode_by : Encoding → DataType → List ℕ → Codec (List ℕ)
encode_by plain data_type values = Plain.encode values
encode_by delta data_type values = Delta.encode data_type values
encode_by rle data_type values = Rle.encode data_type values
encode_by bitpack data_type values = Bitpack.encode data_type values

unfoldable pub encode_values : Encoding → DataType → List ℕ → ℕ → Codec (List ℕ)
unfolding encode_by
encode_values encoding data_type values row_count = do
  let expected = row_count * size_of data_type
  guard (length values == expected) (row_count_mismatch expected (length values))
  encode_by encoding data_type values

unfoldable pub decode_values : Encoding → DataType → List ℕ → ℕ → Codec (List ℕ)
decode_values plain data_type payload row_count = Plain.decode payload row_count (size_of data_type)
decode_values delta data_type payload row_count = Delta.decode data_type payload row_count
decode_values rle data_type payload row_count = Rle.decode data_type payload row_count
decode_values bitpack data_type payload row_count = Bitpack.decode data_type payload row_count

unfoldable pub encode_and_compress :
    Backends → Encoding → Compression → DataType → List ℕ → ℕ → Codec (List ℕ)
encode_and_compress b encoding compression data_type values row_count = do
  encoded ← encode_values encoding data_type values row_count
  compress b compression encoded
