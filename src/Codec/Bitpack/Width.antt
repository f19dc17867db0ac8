-- ===== src/Codec/Bitpack/Width.antt =====
-- The width that `encode` chooses.
use native.Mathlib.Nat.{pow-le-pow_right}
use stkoe_data.Base.{ℕ, zero, suc, ◌+◌, ◌*◌, ◌/◌, ◌^◌, ◌≤◌, ◌<◌, max, ◌≡◌, refl, ap, ◌∙◌}
use stkoe_data.Base.{
  List, [], ◌∷◌, length, get_or, take, drop, ◌==◌, arith, Bool-cases, inl, inr, two-pow-suc,
}
use stkoe_data.Format.DataType.{DataType, size_of}
use stkoe_data.Codec.Bitpack.{bit_length, max_bits, map_to_u64, map_values}

bit_length-le : (fuel v : ℕ) → bit_length fuel v ≤ fuel
unfolding bit_length
bit_length-le zero v = omega arith
bit_length-le (suc fuel) v = ground (arith, bit_length-le fuel (v / 2))

lt-bit_length : (fuel v : ℕ) → v < 2 ^ fuel → v < 2 ^ bit_length fuel v
unfolding bit_length
lt-bit_length zero v h = h
lt-bit_length (suc fuel) v h = elim (Bool-cases (v == 0)) [
  | inl q ↦ rw q (ground arith)
  | inr q ↦ rw q (
      omega (
        arith,
        two-pow-suc (bit_length fuel (v / 2)),
        lt-bit_length fuel (v / 2) (omega (arith, two-pow-suc fuel)),
      ))
]

le-max_bits : (vs : List ℕ) (acc : ℕ) → acc ≤ max_bits vs acc
unfolding max_bits
le-max_bits [] acc = omega arith
le-max_bits (v ∷ vs) acc = omega (arith, le-max_bits vs (max acc (bit_length 64 v)))

pub max_bits-le : (vs : List ℕ) (acc : ℕ) → acc ≤ 64 → max_bits vs acc ≤ 64
unfolding max_bits
max_bits-le [] acc h = h
max_bits-le (v ∷ vs) acc h =
    max_bits-le vs (max acc (bit_length 64 v)) (omega (arith, bit_length-le 64 v))

pub lt-max_bits :
    (vs : List ℕ) (acc k : ℕ)
    → k < length vs
    → get_or vs k 0 < 2 ^ 64
    → get_or vs k 0 < 2 ^ max_bits vs acc
unfolding max_bits
lt-max_bits [] acc k hk h = absurd (omega arith)
lt-max_bits (v ∷ vs) acc zero hk h = omega (
  arith,
  lt-bit_length 64 v h,
  pow-le-pow_right {n = 2} (omega arith) {i = bit_length 64 v}
      {j = max_bits vs (max acc (bit_length 64 v))}
      (omega (arith, le-max_bits vs (max acc (bit_length 64 v)))),
)
lt-max_bits (v ∷ vs) acc (suc k) hk h = lt-max_bits vs (max acc (bit_length 64 v)) k (omega arith) h

pub length-map_values :
    (data_type : DataType) (values : List ℕ) (left i : ℕ)
    → length (map_values data_type values left i) ≡ left
unfolding map_values
length-map_values data_type values zero i = refl
length-map_values data_type values (suc left) i =
    ap suc (length-map_values data_type values left (i + 1))

pub get_or-map_values :
    (data_type : DataType) (values : List ℕ) (left i k : ℕ)
    → k < left
    → get_or (map_values data_type values left i) k 0
      ≡ map_to_u64 data_type (take (size_of data_type) (drop ((i + k) * size_of data_type) values))
unfolding map_values
get_or-map_values data_type values zero i k h = absurd (omega arith)
get_or-map_values data_type values (suc left) i zero h =
    ap (λ t. map_to_u64 data_type (take (size_of data_type) (drop (t * size_of data_type) values)))
      (let e : i ≡ i + zero = omega arith in e)
get_or-map_values data_type values (suc left) i (suc k) h =
    get_or-map_values data_type values left (i + 1) k (omega arith)
    ∙ ap
        (λ t. map_to_u64 data_type (take (size_of data_type) (drop (t * size_of data_type) values)))
        (let e : i + 1 + k ≡ i + suc k = omega arith in e)
