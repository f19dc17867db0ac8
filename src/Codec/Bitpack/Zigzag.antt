-- ===== src/Codec/Bitpack/Zigzag.antt =====
-- `map_to_u64` and `map_from_u64`.
use mathlib.Core.Path.{subst}
use native.Mathlib.Nat.{mod-eq_of_lt}
use stkoe_data.Base.{ℕ, ◌+◌, ◌-◌, ◌*◌, ◌/◌, ◌%◌, ◌^◌, ◌≤◌, ◌<◌, ◌≡◌, sym, ap, ◌∙◌}
use stkoe_data.Base.{List, length, bit_xor-zero, bit_xor_ones, bit_and_mask}
use stkoe_data.Base.{arith, inl, inr, Bool-cases, ltb, IsBytes, from_le, from_le-lt, from_le-zeros}
use stkoe_data.Base.{le_bytes, low_bytes, low_bytes_of_mod, le_bytes-from_le}
use stkoe_data.Format.DataType.{DataType, size_of, is_signed_int, IsWidth, width_bounds}
use stkoe_data.Codec.Bitpack.{sar, zigzag_encode, zigzag_decode, map_to_u64, map_from_u64}

-- The zigzag code of a pattern: `2 v` for a value that is not negative, else `-2 v - 1`.
zigzag_encode_pos : (v : ℕ) → v < 2 ^ 63 → zigzag_encode v ≡ 2 * v
unfolding zigzag_encode
zigzag_encode_pos v h = ground (arith, bit_xor-zero 64 (v * 2 % 2 ^ 64) (omega arith))

zigzag_encode_neg : (v : ℕ) → 2 ^ 63 ≤ v → v < 2 ^ 64 → zigzag_encode v ≡ 2 ^ 65 - 1 - 2 * v
unfolding zigzag_encode
zigzag_encode_neg v h k = ground (arith, bit_xor_ones 64 (v * 2 % 2 ^ 64) (omega arith))

zigzag_decode_even : (u : ℕ) → u < 2 ^ 63 → zigzag_decode (2 * u) ≡ u
unfolding zigzag_decode
zigzag_decode_even u h =
    ground (arith, bit_and_mask 1 (2 * u), bit_xor-zero 64 (2 * u / 2) (omega arith))

zigzag_decode_odd : (u : ℕ) → u < 2 ^ 63 → zigzag_decode (2 * u + 1) ≡ 2 ^ 64 - 1 - u
unfolding zigzag_decode
zigzag_decode_odd u h =
    ground (arith, bit_and_mask 1 (2 * u + 1), bit_xor_ones 64 ((2 * u + 1) / 2) (omega arith))

pub zigzag_decode-encode : (v : ℕ) → v < 2 ^ 64 → zigzag_decode (zigzag_encode v) ≡ v
zigzag_decode-encode v h = elim (Bool-cases (ltb v (2 ^ 63))) [
  | inl q ↦ rw (zigzag_encode_pos v (ground arith)) (zigzag_decode_even v (ground arith))
  | inr q ↦ rw (zigzag_encode_neg v (ground arith) h) (
      ap zigzag_decode (let e : 2 ^ 65 - 1 - 2 * v ≡ 2 * (2 ^ 64 - 1 - v) + 1 = ground arith in e)
      ∙ zigzag_decode_odd (2 ^ 64 - 1 - v) (ground arith)
      ∙ (omega arith))
]

zigzag_encode-lt : (v : ℕ) → v < 2 ^ 64 → zigzag_encode v < 2 ^ 64
zigzag_encode-lt v h = elim (Bool-cases (ltb v (2 ^ 63))) [
  | inl q ↦ ground (arith, zigzag_encode_pos v)
  | inr q ↦ ground (arith, zigzag_encode_neg v)
]

width_pow : (s : ℕ) → IsWidth s → 256 ^ s ≤ 2 ^ 64
width_pow s (inl e) = rw e (omega arith)
width_pow s (inr (inl e)) = rw e (omega arith)
width_pow s (inr (inr (inl e))) = rw e (omega arith)
width_pow s (inr (inr (inr e))) = rw e (omega arith)

-- The sign extension of an `s`-byte pattern is a 64-bit pattern with the same low bytes.
abbrev Extends : ℕ → ℕ → Type 0
Extends raw s =
    raw < 256 ^ s
    → (sar (raw * 2 ^ (64 - s * 8) % 2 ^ 64) (64 - s * 8) < 2 ^ 64)
      × (sar (raw * 2 ^ (64 - s * 8) % 2 ^ 64) (64 - s * 8) % 256 ^ s ≡ raw)

sign_extension : (raw s : ℕ) → IsWidth s → Extends raw s
unfolding sar
sign_extension raw s (inl e) = subst (Extends raw) (sym e) (λ h. ground arith)
sign_extension raw s (inr (inl e)) = subst (Extends raw) (sym e) (λ h. ground arith)
sign_extension raw s (inr (inr (inl e))) = subst (Extends raw) (sym e) (λ h. ground arith)
sign_extension raw s (inr (inr (inr e))) = subst (Extends raw) (sym e) (λ h. ground arith)

module _ (data_type : DataType) (bytes : List ℕ) (width : IsWidth (size_of data_type))
    (sized : length bytes ≡ size_of data_type) (low : IsBytes bytes) where
  raw_lt : from_le bytes < 256 ^ size_of data_type
  raw_lt = rw sized at (from_le-lt bytes low)

  low_bytes-raw :
      (w : ℕ)
      → w % 256 ^ size_of data_type ≡ from_le bytes
      → low_bytes (size_of data_type) w ≡ bytes
  low_bytes-raw w e =
      low_bytes_of_mod (size_of data_type) w (from_le bytes) (width_bounds _ width).1 e
      ∙ ap (λ k. le_bytes k (from_le bytes)) (sym sized)
      ∙ le_bytes-from_le bytes low

  -- Every bit pattern of a fixed-width type comes back from the number that it is mapped to.
  pub map_from_u64-map_to_u64 :
      map_from_u64 data_type (map_to_u64 data_type bytes) (size_of data_type) ≡ bytes
  unfolding map_from_u64 map_to_u64
  map_from_u64-map_to_u64 = elim (Bool-cases (is_signed_int data_type)) [
    | inl q ↦
        rw (q, from_le-zeros bytes (8 - length bytes))
          (let (small, same) = sign_extension (from_le bytes) (size_of data_type) width raw_lt in
            rw (zigzag_decode-encode _ small) (low_bytes-raw _ same))
    | inr q ↦
        rw (q, from_le-zeros bytes (8 - length bytes))
          (low_bytes-raw (from_le bytes) (mod-eq_of_lt raw_lt))
  ]

  pub map_to_u64-lt : map_to_u64 data_type bytes < 2 ^ 64
  unfolding map_to_u64
  map_to_u64-lt = elim (Bool-cases (is_signed_int data_type)) [
    | inl q ↦
        rw (q, from_le-zeros bytes (8 - length bytes))
          (zigzag_encode-lt _ (sign_extension (from_le bytes) (size_of data_type) width raw_lt).0)
    | inr q ↦
        rw (q, from_le-zeros bytes (8 - length bytes))
          (omega (arith, raw_lt, width_pow (size_of data_type) width))
  ]
