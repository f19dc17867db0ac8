-- ===== src/Codec/Encoding/Laws.antt =====
-- The encodings and their decoders.
use stkoe_data.Base.{ℕ, ◌*◌, ◌^◌, ◌<◌, ◌≡◌, List, length, ok, ◌>>=◌, IsBytes, ==-of_eq}
use stkoe_data.Format.DataType.{DataType, size_of, IsWidth, width_bounds}
use stkoe_data.Format.Encoding.{Encoding, plain, delta, rle, bitpack}
use stkoe_data.Codec.Plain
use stkoe_data.Codec.Delta.Laws as DeltaLaws
use stkoe_data.Codec.Rle.Laws as RleLaws
use stkoe_data.Codec.Bitpack.Laws as BitpackLaws
use stkoe_data.Codec.Encoding.{encode_by, encode_values, decode_values}

pub encode_values_checked :
    (encoding : Encoding) (data_type : DataType) (values : List ℕ) (rows : ℕ)
    → length values ≡ rows * size_of data_type
    → encode_values encoding data_type values rows ≡ encode_by encoding data_type values
unfolding encode_values
encode_values_checked encoding data_type values rows sized = rw (==-of_eq _ _ sized)

-- A column of fewer than 2^32 fixed-width values is read back unchanged, whatever the encoding.
pub decode_values-encode_values :
    (encoding : Encoding) (data_type : DataType) (values : List ℕ) (rows : ℕ)
    → IsWidth (size_of data_type)
    → IsBytes values
    → rows < 2 ^ 32
    → length values ≡ rows * size_of data_type
    → (encode_values encoding data_type values rows >>= λ payload.
        decode_values encoding data_type payload rows)
      ≡ ok values
unfolding decode_values encode_values
decode_values-encode_values plain data_type values rows width bytes small sized =
    rw (==-of_eq _ _ sized) (Plain.decode-encode_plain values rows (size_of data_type) sized)
decode_values-encode_values delta data_type values rows width bytes small sized =
    rw (==-of_eq _ _ sized) (DeltaLaws.decode-encode_delta data_type values rows width sized bytes)
decode_values-encode_values rle data_type values rows width bytes small sized =
    rw (==-of_eq _ _ sized)
      (RleLaws.decode-encode_rle data_type values rows (width_bounds _ width).0 sized small)
decode_values-encode_values bitpack data_type values rows width bytes small sized =
    rw (==-of_eq _ _ sized)
      (BitpackLaws.decode-encode_bitpack data_type values rows width sized bytes)
