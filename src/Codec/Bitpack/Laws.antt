-- ===== src/Codec/Bitpack/Laws.antt =====
-- Decoding what was bit-packed.
use native.Mathlib.Nat.{mul-div_cancel}
use stkoe_data.Base.{
  ℕ, zero, suc, ◌+◌, ◌*◌, ◌/◌, ◌%◌, ◌^◌, ◌≤◌, ◌<◌, max, ◌≡◌, refl, sym, ap, ap₂, ◌∙◌,
}
use stkoe_data.Base.{
  List, [], ◌∷◌, ◌++◌, length, get_or, take, drop, replicate, bit, bit_at, bit_at-cons, bit_of_lt,
  bit_ext,
}
use stkoe_data.Base.{ltb, lt→ltb, le→leb, arith, Bool-cases, inl, inr, ok, ◌>>=◌}
use stkoe_data.Base.{
  IsBytes, take-IsBytes, drop-IsBytes, length-word, length-replicate, drop_all, drop-drop,
  take-append-drop,
}
use stkoe_data.Format.DataType.{DataType, size_of, IsWidth, width_bounds}
use stkoe_data.Codec.Bitpack.{
  max_bits, map_to_u64, map_from_u64, map_values, write_values, read_bits, encode, decode_loop,
  decode,
}
use stkoe_data.Codec.Bitpack.Zigzag.{map_to_u64-lt, map_from_u64-map_to_u64}
use stkoe_data.Codec.Bitpack.Read.{read_bits_bits, read_bits-lt}
use stkoe_data.Codec.Bitpack.Rows.{
  laid, laid_row, write_values_bits, length-write_values, write_values_front,
}
use stkoe_data.Codec.Bitpack.Width.{max_bits-le, lt-max_bits, length-map_values, get_or-map_values}

get_or-zeros : (m i : ℕ) → get_or {A = ℕ} (replicate m 0) i 0 ≡ 0
get_or-zeros zero i = refl
get_or-zeros (suc m) zero = refl
get_or-zeros (suc m) (suc i) = get_or-zeros m i

bit_at-zeros : (k n : ℕ) → bit_at (replicate k 0) n ≡ 0
unfolding bit_at
bit_at-zeros k n =
    ap (bit (n % 8)) (get_or-zeros k (n / 8)) ∙ bit_of_lt 0 (n % 8) 0 (omega arith) (omega arith)

bit_at-drop : (buf : List ℕ) (n : ℕ) → 0 < length buf → bit_at (drop 1 buf) n ≡ bit_at buf (8 + n)
bit_at-drop [] n h = absurd (omega arith)
bit_at-drop (b ∷ buf) n h = sym (bit_at-cons b buf n)

-- Reading row `k` of the packed buffer gives the row's value back.
module _ (vs : List ℕ) (width : ℕ) where
  abbrev packed : List ℕ
  packed = write_values vs 0 width (width ∷ replicate ((length vs * width + 7) / 8) 0)

  room :
      8 + (0 + length vs) * width ≤ 8 * length (width ∷ replicate ((length vs * width + 7) / 8) 0)
  room = omega (arith, length-replicate {A = ℕ} ((length vs * width + 7) / 8) 0)

  length-packed : length packed ≡ 1 + (length vs * width + 7) / 8
  length-packed =
      length-write_values vs 0 width _
      ∙ omega (arith, length-replicate {A = ℕ} ((length vs * width + 7) / 8) 0)

  packed_front : get_or packed 0 0 ≡ width
  packed_front = write_values_front vs 0 width _ room

  bit_at-packed :
      (k j : ℕ)
      → j < width
      → k < length vs
      → bit_at (drop 1 packed) (k * width + j) ≡ bit j (get_or vs k 0)
  bit_at-packed k j hj hk =
      bit_at-drop packed (k * width + j) (omega (arith, length-packed))
      ∙ write_values_bits vs 0 width _ (8 + (k * width + j)) room
      ∙ ap (λ t. max t (laid vs 0 width (8 + (k * width + j))))
          (bit_at-cons width _ (k * width + j) ∙ bit_at-zeros _ (k * width + j))
      ∙ (omega arith)
      ∙ ap (laid vs 0 width)
          (let e : 8 + (k * width + j) ≡ 8 + (0 + k) * width + j = omega arith in e)
      ∙ laid_row vs 0 width k j hj hk

  read_row :
      (k : ℕ)
      → k < length vs
      → width ≤ 64
      → get_or vs k 0 < 2 ^ width
      → get_or vs k 0 < 2 ^ 64
      → read_bits (drop 1 packed) (k * width) width ≡ get_or vs k 0
  read_row k hk hw hv hv' =
      bit_ext 64 _ _ (read_bits-lt (drop 1 packed) (k * width) width) hv' λ j hj.
        read_bits_bits (drop 1 packed) (k * width) width j hj ∙ elim (Bool-cases (ltb j width)) [
          | inl q ↦ rw q (bit_at-packed k j (ground arith) hk)
          | inr q ↦ rw q (sym (bit_of_lt width j (get_or vs k 0) hv (ground arith)))
        ]

decode_ok :
    (data_type : DataType) (payload : List ℕ) (rows bit_width : ℕ)
    → get_or payload 0 0 ≡ bit_width
    → bit_width ≤ 64
    → 1 + (rows * bit_width + 7) / 8 ≤ length payload
    → decode data_type payload rows ≡ ok (decode_loop data_type (drop 1 payload) bit_width rows 0)
unfolding decode
decode_ok data_type payload rows bit_width front small fits =
    rw (front, lt→ltb 0 (length payload) (omega arith), le→leb bit_width 64 small, le→leb _ _ fits)

module _ (data_type : DataType) (values : List ℕ) (rows : ℕ) (width : IsWidth (size_of data_type))
    (sized : length values ≡ rows * size_of data_type) (bytes : IsBytes values) where
  abbrev mapped : List ℕ
  mapped = map_values data_type values rows 0

  abbrev cell : ℕ → List ℕ
  cell i = take (size_of data_type) (drop (i * size_of data_type) values)

  mapped_row : (k : ℕ) → k < rows → get_or mapped k 0 ≡ map_to_u64 data_type (cell k)
  mapped_row k h =
      get_or-map_values data_type values rows 0 k h
      ∙ ap (λ t. map_to_u64 data_type (cell t)) (let e : 0 + k ≡ k = omega arith in e)

  mapped_lt : (k : ℕ) → k < rows → get_or mapped k 0 < 2 ^ 64
  mapped_lt k h = rw (mapped_row k h) (
      map_to_u64-lt data_type (cell k) width (length-word (size_of data_type) values rows k sized h)
        (take-IsBytes _ _ (drop-IsBytes (k * size_of data_type) values bytes)))

  abbrev bit_width : ℕ
  bit_width = max_bits mapped 0

  decoded_row :
      (k : ℕ)
      → k < rows
      → map_from_u64 data_type
          (read_bits (drop 1 (packed mapped bit_width)) (k * bit_width) bit_width)
          (size_of data_type)
        ≡ cell k
  decoded_row k h =
      let counted : k < length mapped = rw (length-map_values data_type values rows 0) h in
      ap (λ t. map_from_u64 data_type t (size_of data_type))
        (read_row mapped bit_width k counted (max_bits-le mapped 0 (omega arith))
            (lt-max_bits mapped 0 k counted (mapped_lt k h)) (mapped_lt k h)
          ∙ mapped_row k h)
      ∙ map_from_u64-map_to_u64 data_type (cell k) width
          (length-word (size_of data_type) values rows k sized h)
          (take-IsBytes _ _ (drop-IsBytes (k * size_of data_type) values bytes))

  decode_loop-eq-drop :
      (left i : ℕ)
      → i + left ≡ rows
      → decode_loop data_type (drop 1 (packed mapped bit_width)) bit_width left i
        ≡ drop (i * size_of data_type) values
  unfolding decode_loop
  decode_loop-eq-drop zero i e = sym (
      drop_all (i * size_of data_type) values
        (rw sized (let q : rows ≡ i = omega arith in rw q (omega arith))))
  decode_loop-eq-drop (suc left) i e =
      ap₂ ◌++◌ (decoded_row i (omega arith)) (
        decode_loop-eq-drop left (i + 1) (omega arith)
        ∙ ap (λ k. drop k values)
            (let q : (i + 1) * size_of data_type ≡ i * size_of data_type + size_of data_type =
                omega arith in
              q)
        ∙ sym (drop-drop (size_of data_type) (i * size_of data_type) values))
      ∙ take-append-drop (size_of data_type) (drop (i * size_of data_type) values)

  pub encode_ok :
      encode data_type values
      ≡ ok (write_values mapped 0 bit_width (bit_width ∷ replicate ((rows * bit_width + 7) / 8) 0))
  unfolding encode
  encode_ok =
      let n : length values / size_of data_type ≡ rows =
        ap (λ (l : ℕ). l / size_of data_type) sized
        ∙ mul-div_cancel rows (width_bounds (size_of data_type) width).0 in
      rw n (ground (arith, width_bounds (size_of data_type) width))

  -- A column of fixed-width values of any bit pattern that is bit-packed is read back unchanged.
  pub decode-encode_bitpack :
      (encode data_type values >>= λ payload. decode data_type payload rows) ≡ ok values
  decode-encode_bitpack = rw encode_ok (
      ap
        (λ (m : ℕ).
          decode data_type
            (write_values mapped 0 bit_width (bit_width ∷ replicate ((m * bit_width + 7) / 8) 0))
            rows)
        (sym (length-map_values data_type values rows 0))
      ∙ decode_ok data_type (packed mapped bit_width) rows bit_width (packed_front mapped bit_width)
          (max_bits-le mapped 0 (omega arith))
          (omega (
            arith,
            length-packed mapped bit_width,
            ap (λ (m : ℕ). (m * bit_width + 7) / 8) (length-map_values data_type values rows 0),
          ))
      ∙ ap ok (
          decode_loop-eq-drop rows 0 (omega arith)
          ∙ ap (λ k. drop k values) (let e : 0 * size_of data_type ≡ 0 = omega arith in e)))
