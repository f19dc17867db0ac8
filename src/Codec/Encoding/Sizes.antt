-- ===== src/Codec/Encoding/Sizes.antt =====
-- How long an encoded column can be.
use stkoe_data.Base.{
  ℕ, ◌+◌, ◌*◌, ◌-◌, ◌/◌, ◌≤◌, ◌≡◌, ap, sym, ◌∙◌, List, ◌∷◌, length, replicate, ok, arith,
}
use stkoe_data.Base.{IsBytes, length-replicate, ok-injective}
use stkoe_data.Format.DataType.{DataType, size_of, IsWidth, width_bounds}
use stkoe_data.Format.Encoding.{Encoding, plain, delta, rle, bitpack}
use stkoe_data.Codec.Plain
use stkoe_data.Codec.Delta.Laws as DeltaLaws
use stkoe_data.Codec.Rle.Laws as RleLaws
use stkoe_data.Codec.Rle.Sizes as RleSizes
use stkoe_data.Codec.Bitpack.Laws as BitpackLaws
use stkoe_data.Codec.Bitpack.{map_values, max_bits}
use stkoe_data.Codec.Bitpack.Rows.{length-write_values}
use stkoe_data.Codec.Bitpack.Width.{max_bits-le}
use stkoe_data.Codec.Encoding.{encode_by, encode_values}
use stkoe_data.Codec.Encoding.Laws.{encode_values_checked}

module _ (data_type : DataType) (values : List ℕ) (rows : ℕ) (width : IsWidth (size_of data_type))
    (bytes : IsBytes values) (sized : length values ≡ rows * size_of data_type) where
  cells-le : rows * size_of data_type ≤ 8 * rows
  cells-le = let w = width_bounds (size_of data_type) width in grind arith

  pairs-le : rows * (4 + size_of data_type) ≤ 12 * rows
  pairs-le = let w = width_bounds (size_of data_type) width in grind arith

  packed-le : (k : ℕ) → k ≤ 64 → 1 + (rows * k + 7) / 8 ≤ 12 * rows + 1
  packed-le k h = let p : rows * k ≤ rows * 64 = grind arith in omega arith

  length-encode_by-le :
      (encoding : Encoding) (out : List ℕ)
      → encode_by encoding data_type values ≡ ok out
      → length out ≤ 12 * rows + 1
  unfolding encode_by Plain.encode
  length-encode_by-le plain out e = omega (arith, cells-le, ap length (ok-injective e))
  length-encode_by-le delta out e = omega (
    arith,
    cells-le,
    ap length (ok-injective (sym (DeltaLaws.encode_ok data_type values rows width sized) ∙ e)),
    DeltaLaws.length-encode_loop (size_of data_type) values rows 0 (width_bounds _ width).1,
  )
  length-encode_by-le rle out e = omega (
    arith,
    pairs-le,
    ap (λ (t : ℕ). t * (4 + size_of data_type)) (let q : rows - 0 ≡ rows = omega arith in q),
    ap length (
        ok-injective
          (sym (RleLaws.encode_ok data_type values rows (width_bounds _ width).0 sized) ∙ e)),
    RleSizes.length-encode_loop-le rows rows (size_of data_type) values 0 sized,
  )
  length-encode_by-le bitpack out e =
      let mapped = map_values data_type values rows 0 in
      let bit_width = max_bits mapped 0 in
      omega (
        arith,
        ap length (
            ok-injective (sym (BitpackLaws.encode_ok data_type values rows width sized bytes) ∙ e)),
        length-write_values mapped 0 bit_width
            (bit_width ∷ replicate ((rows * bit_width + 7) / 8) 0),
        length-replicate {A = ℕ} ((rows * bit_width + 7) / 8) 0,
        packed-le bit_width (max_bits-le mapped 0 (omega arith)),
      )

  -- An encoded column of fixed-width values takes at most twelve bytes a row, and one more byte.
  pub length-encode_values-le :
      (encoding : Encoding) (encoded : List ℕ)
      → encode_values encoding data_type values rows ≡ ok encoded
      → length encoded ≤ 12 * rows + 1
  length-encode_values-le encoding encoded e =
      length-encode_by-le encoding encoded
        (sym (encode_values_checked encoding data_type values rows sized) ∙ e)
