-- ===== src/Core/Field/Eval.antt =====
-- `eval_predicate_bytes` of crates/splayed-core/src/field_file.rs: a predicate on all rows of a
-- range at once. A mask has a byte for each row, 0 or 1.
pub mod Words
pub mod Exact
pub mod Masks
pub mod Rows
pub mod Total
use stkoe_data.Base.{
  ℕ, zero, suc, ◌+◌, ◌-◌, ◌*◌, ◌/◌, ◌%◌, ◌^◌, bit_and, bit_or, bit_xor, Bool, true, false, not,
  List, [], ◌∷◌, ◌++◌, map, length, take, drop, replicate, from_le, ok, err, assert, ◌>>=◌, ◌>>◌,
  ◌==◌, leb, ltb, if◌then◌else◌, ◌&&◌,
}
use Prim.Native.Nat.{Ordering, compare}
use stkoe_data.Format.DataType
use stkoe_data.Format.DataType.{DataType}
use stkoe_data.Core.Lookup.{Core, invalid}
use stkoe_data.Core.Predicate.{
  CmpOp, eq, ne, lt, le, gt, ge, matches, Scalar, boolean, int, uint, float, str, Predicate, all_of,
  any_of, negation, cmp, Predicates, nil, cons,
}

-- The conversions to `f64` and its comparisons, on bit patterns.
pub record Floats : Type 0 where
  pub of_f32 : ℕ → ℕ
  pub of_i64 : ℕ → ℕ
  pub of_u64 : ℕ → ℕ
  pub float_test : CmpOp → ℕ → ℕ → Bool

-- `as u8`
abbrev pub as_u8 : Bool → ℕ
as_u8 true = 1
as_u8 false = 0

unfoldable pub words_of : ℕ → ℕ → List ℕ → List ℕ
words_of s zero values = []
words_of s (suc n) values = from_le (take s values) ∷ words_of s n (drop s values)

-- `bytemuck::cast_slice` panics when a part of a word is left.
unfoldable pub typed_slice : ℕ → List ℕ → Core (List ℕ)
unfolding words_of
typed_slice s values = do
  assert (length values % s == 0)
  ok (words_of s (length values / s) values)

-- The operators on `u64`, and on the bit patterns of `i64`.
unfoldable pub unsigned_test : CmpOp → ℕ → ℕ → Bool
unsigned_test eq a v = a == v
unsigned_test ne a v = not (a == v)
unsigned_test lt a v = ltb a v
unsigned_test le a v = leb a v
unsigned_test gt a v = ltb v a
unsigned_test ge a v = leb v a

abbrev pub biased : ℕ → ℕ
biased a = (a + 2 ^ 63) % 2 ^ 64

abbrev pub signed_test : CmpOp → ℕ → ℕ → Bool
signed_test op a v = unsigned_test op (biased a) (biased v)

-- `as i64` of a signed number of `s` bytes.
unfoldable pub sign_extend : ℕ → ℕ → ℕ
sign_extend s a = if ltb a (2 ^ (8 * s - 1)) then a else a + (2 ^ 64 - 2 ^ (8 * s))

-- A row out of bounds panics; rows without a value keep their 0.
unfoldable pub fill_rows : (ℕ → Bool) → List ℕ → ℕ → Core (List ℕ)
fill_rows test arr rows = do
  assert (leb (length arr) rows)
  ok (map (λ a. as_u8 (test a)) arr ++ replicate (rows - length arr) 0)

-- `fill_cmp!` of a typed slice.
unfoldable pub fill_cmp : (ℕ → Bool) → ℕ → List ℕ → ℕ → Core (List ℕ)
unfolding typed_slice fill_rows
fill_cmp test s values rows = typed_slice s values >>= λ arr. fill_rows test arr rows

abbrev fill_with : ℕ → Bool → Core (List ℕ)
fill_with rows b = ok (replicate rows (as_u8 b))

unfoldable pub bool_arm : List ℕ → CmpOp → Scalar → ℕ → Core (List ℕ)
unfolding fill_rows matches
bool_arm values op (boolean v) rows =
    fill_rows (λ a. matches op (compare (as_u8 (not (a == 0))) (as_u8 v))) values rows
bool_arm values op value rows = err invalid

module _ (fl : Floats) where
  unfoldable pub signed_arm : ℕ → List ℕ → CmpOp → Scalar → ℕ → Core (List ℕ)
  unfolding fill_cmp unsigned_test sign_extend matches
  signed_arm s values op (int v) rows =
      fill_cmp (λ a. signed_test op (sign_extend s a) v) s values rows
  signed_arm s values op (uint v) rows =
      if ltb (2 ^ 63 - 1) v
      then fill_with rows (matches op Ordering.lt)
      else fill_cmp (λ a. signed_test op (sign_extend s a) v) s values rows
  signed_arm s values op (float f) rows =
      fill_cmp (λ a. fl.float_test op (fl.of_i64 (sign_extend s a)) f) s values rows
  signed_arm s values op value rows = err invalid

  unfoldable pub unsigned_arm : ℕ → List ℕ → CmpOp → Scalar → ℕ → Core (List ℕ)
  unfolding fill_cmp unsigned_test matches
  unsigned_arm s values op (uint v) rows = fill_cmp (λ a. unsigned_test op a v) s values rows
  unsigned_arm s values op (int v) rows =
      if leb (2 ^ 63) v
      then fill_with rows (matches op Ordering.gt)
      else fill_cmp (λ a. unsigned_test op a v) s values rows
  unsigned_arm s values op (float f) rows =
      fill_cmp (λ a. fl.float_test op (fl.of_u64 a) f) s values rows
  unsigned_arm s values op value rows = err invalid

  -- `widen` is the conversion of a row to `f64`.
  unfoldable pub float_arm : (ℕ → ℕ) → ℕ → List ℕ → CmpOp → Scalar → ℕ → Core (List ℕ)
  unfolding fill_cmp
  float_arm widen s values op (float f) rows =
      fill_cmp (λ a. fl.float_test op (widen a) f) s values rows
  float_arm widen s values op (int v) rows =
      fill_cmp (λ a. fl.float_test op (widen a) (fl.of_i64 v)) s values rows
  float_arm widen s values op (uint v) rows =
      fill_cmp (λ a. fl.float_test op (widen a) (fl.of_u64 v)) s values rows
  float_arm widen s values op value rows = err invalid

  unfoldable pub eval_cmp_bytes : DataType → List ℕ → CmpOp → Scalar → ℕ → Core (List ℕ)
  unfolding bool_arm signed_arm unsigned_arm float_arm
  eval_cmp_bytes DataType.utf8 values op value rows = err invalid
  eval_cmp_bytes DataType.bool values op value rows = bool_arm values op value rows
  eval_cmp_bytes DataType.int8 values op value rows = signed_arm 1 values op value rows
  eval_cmp_bytes DataType.int16 values op value rows = signed_arm 2 values op value rows
  eval_cmp_bytes DataType.int32 values op value rows = signed_arm 4 values op value rows
  eval_cmp_bytes DataType.date32 values op value rows = signed_arm 4 values op value rows
  eval_cmp_bytes DataType.int64 values op value rows = signed_arm 8 values op value rows
  eval_cmp_bytes DataType.timestamp_us values op value rows = signed_arm 8 values op value rows
  eval_cmp_bytes DataType.date64 values op value rows = signed_arm 8 values op value rows
  eval_cmp_bytes DataType.uint8 values op value rows = unsigned_arm 1 values op value rows
  eval_cmp_bytes DataType.uint16 values op value rows = unsigned_arm 2 values op value rows
  eval_cmp_bytes DataType.uint32 values op value rows = unsigned_arm 4 values op value rows
  eval_cmp_bytes DataType.uint64 values op value rows = unsigned_arm 8 values op value rows
  eval_cmp_bytes DataType.float32 values op value rows = float_arm fl.of_f32 4 values op value rows
  eval_cmp_bytes DataType.float64 values op value rows = float_arm (λ a. a) 8 values op value rows

-- `*o &= b` and `*o |= b` over the zip of two masks.
unfoldable pub and_bytes : List ℕ → List ℕ → List ℕ
and_bytes [] c = []
and_bytes (o ∷ out) [] = o ∷ out
and_bytes (o ∷ out) (b ∷ c) = bit_and o b ∷ and_bytes out c

unfoldable pub or_bytes : List ℕ → List ℕ → List ℕ
or_bytes [] c = []
or_bytes (o ∷ out) [] = o ∷ out
or_bytes (o ∷ out) (b ∷ c) = bit_or o b ∷ or_bytes out c

unfoldable pub all_zero : List ℕ → Bool
all_zero [] = true
all_zero (b ∷ out) = (b == 0) && all_zero out

module _ (fl : Floats) (data_type : DataType) (values : List ℕ) (rows : ℕ) where
  unfoldable mutual
    unfolding eval_cmp_bytes and_bytes or_bytes all_zero

    pub eval_predicate_bytes : Predicate → Core (List ℕ)
    eval_predicate_bytes (all_of children) = eval_and children (replicate rows 1)
    eval_predicate_bytes (any_of children) = eval_or children (replicate rows 0)
    eval_predicate_bytes (negation inner) =
        eval_predicate_bytes inner >>= λ c. ok (map (λ b. bit_xor b 1) c)
    eval_predicate_bytes (cmp field op value) = eval_cmp_bytes fl data_type values op value rows

    -- The loop of `And`, which stops when no row is left.
    pub eval_and : Predicates → List ℕ → Core (List ℕ)
    eval_and nil out = ok out
    eval_and (cons p children) out = eval_predicate_bytes p >>= λ c.
        elim (all_zero (and_bytes out c)) [
          | true ↦ ok (and_bytes out c)
          | false ↦ eval_and children (and_bytes out c)
        ]

    -- The loop of `Or`.
    pub eval_or : Predicates → List ℕ → Core (List ℕ)
    eval_or nil out = ok out
    eval_or (cons p children) out =
        eval_predicate_bytes p >>= λ c. eval_or children (or_bytes out c)
