-- ===== src/Core/Field/Stored/Sizes.antt =====
-- The parts of a chunk of a FIELD file are few enough bytes for each of the compressors.
use stkoe_data.Base.{
  ℕ, ◌+◌, ◌*◌, ◌/◌, ◌^◌, ◌≤◌, ◌<◌, ◌≡◌, ap, List, ◌++◌, length, Option, none, some, ok, arith,
  length-append,
}
use stkoe_data.Format.DataType.{DataType, size_of, rows-size_of-le}
use stkoe_data.Format.Encoding.{plain}
use stkoe_data.Format.Compression.{Compression}
use stkoe_data.Codec.Plain
use stkoe_data.Codec.Encoding.{encode_by, encode_values}
use stkoe_data.Codec.Compression.{HasSize, HasSize-of_lt}
use stkoe_data.Codec.Chunk.{validity_bytes}
use stkoe_data.Core.Field.Stored.Bits.{IsPacked}

encode_values-plain :
    (dt : DataType) (values : List ℕ) (rows : ℕ) (encoded : List ℕ)
    → encode_values plain dt values rows ≡ ok encoded
    → encoded ≡ values
unfolding encode_values encode_by Plain.encode
encode_values-plain dt values rows encoded e = ground arith

length-validity_bytes :
    (k : ℕ) (packed : Option (List ℕ))
    → IsPacked k packed
    → length (validity_bytes packed) ≤ (k + 7) / 8
unfolding IsPacked
length-validity_bytes k none h = omega arith
length-validity_bytes k (some bytes) h = omega (arith, h.0)

pub packed-HasSize :
    (compression : Compression) (dt : DataType) (values : List ℕ) (k : ℕ) (packed : Option (List ℕ))
    → length values ≤ k * size_of dt
    → IsPacked k packed
    → 12 * k + 1 < 2 ^ 32
    → (encoded : List ℕ) → encode_values plain dt values k ≡ ok encoded
    → HasSize compression (encoded ++ validity_bytes packed)
packed-HasSize compression dt values k packed sized is_packed few encoded e =
    HasSize-of_lt compression (encoded ++ validity_bytes packed) (
      omega (
        arith,
        length-append encoded (validity_bytes packed),
        ap length (encode_values-plain dt values k encoded e),
        length-validity_bytes k packed is_packed,
        rows-size_of-le dt k,
      ))
