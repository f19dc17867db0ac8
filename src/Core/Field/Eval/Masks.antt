-- ===== src/Core/Field/Eval/Masks.antt =====
-- The masks that comparisons and the loops of a predicate compute.
use stkoe_data.Base.{
  ℕ, zero, suc, ◌-◌, ◌≤◌, ◌<◌, ◌≡◌, refl, ap, bit_and, bit_or, bit_xor, Bool, true, false, not,
  ◌&&◌, ◌||◌, List, [], ◌∷◌, ◌++◌, map, length, replicate, ok, err, leb, assert, arith, get_or,
  length-append, length-replicate, >>=-eq-ok, ok-injective, if◌then◌else◌,
}
use mathlib.Core.Path.{subst}
use stkoe_data.Format.DataType.{DataType}
use stkoe_data.Core.Lookup.{Core, CoreError}
use stkoe_data.Core.Predicate.{CmpOp, Scalar}
use stkoe_data.Core.Field.Eval.{
  Floats, as_u8, and_bytes, or_bytes, all_zero, eval_cmp_bytes, typed_slice, fill_rows, fill_cmp,
  bool_arm, signed_arm, unsigned_arm, float_arm,
}

-- A mask of `rows` bytes, each 0 or 1.
abbrev pub IsMask : ℕ → List ℕ → Type 0
IsMask rows mask = (length mask ≡ rows) × ((i : ℕ) → get_or mask i 0 ≤ 1)

pub length-and_bytes : (out c : List ℕ) → length (and_bytes out c) ≡ length out
unfolding and_bytes
length-and_bytes [] c = refl
length-and_bytes (o ∷ out) [] = refl
length-and_bytes (o ∷ out) (b ∷ c) = ap suc (length-and_bytes out c)

pub length-or_bytes : (out c : List ℕ) → length (or_bytes out c) ≡ length out
unfolding or_bytes
length-or_bytes [] c = refl
length-or_bytes (o ∷ out) [] = refl
length-or_bytes (o ∷ out) (b ∷ c) = ap suc (length-or_bytes out c)

pub get_or-and_bytes :
    (out c : List ℕ) (i : ℕ)
    → i < length out
    → length out ≡ length c
    → get_or (and_bytes out c) i 0 ≡ bit_and (get_or out i 0) (get_or c i 0)
unfolding and_bytes
get_or-and_bytes [] c i h e = absurd (omega arith)
get_or-and_bytes (o ∷ out) [] i h e = absurd (omega arith)
get_or-and_bytes (o ∷ out) (b ∷ c) zero h e = refl
get_or-and_bytes (o ∷ out) (b ∷ c) (suc i) h e =
    get_or-and_bytes out c i (omega arith) (omega arith)

pub get_or-or_bytes :
    (out c : List ℕ) (i : ℕ)
    → i < length out
    → length out ≡ length c
    → get_or (or_bytes out c) i 0 ≡ bit_or (get_or out i 0) (get_or c i 0)
unfolding or_bytes
get_or-or_bytes [] c i h e = absurd (omega arith)
get_or-or_bytes (o ∷ out) [] i h e = absurd (omega arith)
get_or-or_bytes (o ∷ out) (b ∷ c) zero h e = refl
get_or-or_bytes (o ∷ out) (b ∷ c) (suc i) h e = get_or-or_bytes out c i (omega arith) (omega arith)

pub get_or-map :
    (f : ℕ → ℕ) (c : List ℕ) (i : ℕ) → i < length c → get_or (map f c) i 0 ≡ f (get_or c i 0)
get_or-map f [] i h = absurd (omega arith)
get_or-map f (b ∷ c) zero h = refl
get_or-map f (b ∷ c) (suc i) h = get_or-map f c i (omega arith)

pub length-map : (f : ℕ → ℕ) (c : List ℕ) → length (map f c) ≡ length c
length-map f [] = refl
length-map f (b ∷ c) = ap suc (length-map f c)

pub get_or-replicate : (n k i : ℕ) → i < n → get_or (replicate n k) i 0 ≡ k
get_or-replicate zero k i h = absurd (omega arith)
get_or-replicate (suc n) k zero h = refl
get_or-replicate (suc n) k (suc i) h = get_or-replicate n k i (omega arith)

pub all_zero-get_or : (out : List ℕ) (i : ℕ) → all_zero out ≡ true → get_or out i 0 ≡ 0
unfolding all_zero
all_zero-get_or [] i h = refl
all_zero-get_or (b ∷ out) zero h = ground arith
all_zero-get_or (b ∷ out) (suc i) h = all_zero-get_or out i (ground arith)

pub and_as_u8 : (a b : Bool) → bit_and (as_u8 a) (as_u8 b) ≡ as_u8 (a && b)
and_as_u8 true true = refl
and_as_u8 true false = refl
and_as_u8 false true = refl
and_as_u8 false false = refl

pub or_as_u8 : (a b : Bool) → bit_or (as_u8 a) (as_u8 b) ≡ as_u8 (a || b)
or_as_u8 true true = refl
or_as_u8 true false = refl
or_as_u8 false true = refl
or_as_u8 false false = refl

pub not-as_u8 : (a : Bool) → bit_xor (as_u8 a) 1 ≡ as_u8 (not a)
not-as_u8 true = refl
not-as_u8 false = refl

replicate-IsMask : (rows : ℕ) (b : Bool) → IsMask rows (replicate rows (as_u8 b))
replicate-IsMask rows b = (length-replicate rows (as_u8 b), bound rows b)
  where
    bound : (n : ℕ) (b : Bool) (i : ℕ) → get_or (replicate n (as_u8 b)) i 0 ≤ 1
    bound zero b i = omega arith
    bound (suc n) true zero = omega arith
    bound (suc n) false zero = omega arith
    bound (suc n) b (suc i) = bound n b i

filled-bound :
    (test : ℕ → Bool) (arr : List ℕ) (n i : ℕ)
    → get_or (map (λ a. as_u8 (test a)) arr ++ replicate n 0) i 0 ≤ 1
filled-bound test [] n i = (replicate-IsMask n false).1 i
filled-bound test (a ∷ arr) n (suc i) = filled-bound test arr n i
filled-bound test (a ∷ arr) n zero = bound (test a)
  where
    bound : (b : Bool) → as_u8 b ≤ 1
    bound true = omega arith
    bound false = omega arith

-- `out` is a mask where it is computed.
abbrev pub AllMask : ℕ → Core (List ℕ) → Type 0
AllMask rows out = (mask : List ℕ) → out ≡ ok mask → IsMask rows mask

fill_rows-AllMask :
    (test : ℕ → Bool) (arr : List ℕ) (rows : ℕ) → AllMask rows (fill_rows test arr rows)
unfolding fill_rows
fill_rows-AllMask test arr rows mask e =
    let (u, small, e') = >>=-eq-ok (assert (leb (length arr) rows)) _ e in
    subst (IsMask rows) (ok-injective e') (
      (let small' : length arr ≤ rows = ground arith in
          omega (
            arith,
            length-append (map (λ a. as_u8 (test a)) arr) (replicate (rows - length arr) 0),
            length-map (λ a. as_u8 (test a)) arr,
            length-replicate {A = ℕ} (rows - length arr) 0,
          )),
      filled-bound test arr (rows - length arr),
    )

fill_cmp-AllMask :
    (test : ℕ → Bool) (s : ℕ) (values : List ℕ) (rows : ℕ)
    → AllMask rows (fill_cmp test s values rows)
unfolding fill_cmp
fill_cmp-AllMask test s values rows mask e =
    let (arr, typed, e') = >>=-eq-ok (typed_slice s values) _ e in
    fill_rows-AllMask test arr rows mask e'

fill_with-AllMask : (rows : ℕ) (b : Bool) → AllMask rows (ok (replicate rows (as_u8 b)))
fill_with-AllMask rows b mask e = subst (IsMask rows) (ok-injective e) (replicate-IsMask rows b)

if-AllMask :
    (rows : ℕ) (test : Bool) (x y : Core (List ℕ))
    → AllMask rows x
    → AllMask rows y
    → AllMask rows (if test then x else y)
if-AllMask rows true x y h k = h
if-AllMask rows false x y h k = k

err-AllMask : (rows : ℕ) (e : CoreError) → AllMask rows (err e)
err-AllMask rows e mask h = cc

bool_arm-AllMask :
    (values : List ℕ) (op : CmpOp) (value : Scalar) (rows : ℕ)
    → AllMask rows (bool_arm values op value rows)
unfolding bool_arm
bool_arm-AllMask values op (Scalar.boolean v) rows = fill_rows-AllMask _ values rows
bool_arm-AllMask values op _ rows = err-AllMask rows _

module _ (fl : Floats) (s : ℕ) (values : List ℕ) (op : CmpOp) (rows : ℕ) where
  signed_arm-AllMask : (value : Scalar) → AllMask rows (signed_arm fl s values op value rows)
  unfolding signed_arm
  signed_arm-AllMask (Scalar.int v) = fill_cmp-AllMask _ s values rows
  signed_arm-AllMask (Scalar.uint v) =
      if-AllMask rows _ _ _ (fill_with-AllMask rows _) (fill_cmp-AllMask _ s values rows)
  signed_arm-AllMask (Scalar.float v) = fill_cmp-AllMask _ s values rows
  signed_arm-AllMask _ = err-AllMask rows _

  unsigned_arm-AllMask : (value : Scalar) → AllMask rows (unsigned_arm fl s values op value rows)
  unfolding unsigned_arm
  unsigned_arm-AllMask (Scalar.uint v) = fill_cmp-AllMask _ s values rows
  unsigned_arm-AllMask (Scalar.int v) =
      if-AllMask rows _ _ _ (fill_with-AllMask rows _) (fill_cmp-AllMask _ s values rows)
  unsigned_arm-AllMask (Scalar.float v) = fill_cmp-AllMask _ s values rows
  unsigned_arm-AllMask _ = err-AllMask rows _

  float_arm-AllMask :
      (widen : ℕ → ℕ) (value : Scalar) → AllMask rows (float_arm fl widen s values op value rows)
  unfolding float_arm
  float_arm-AllMask widen (Scalar.uint v) = fill_cmp-AllMask _ s values rows
  float_arm-AllMask widen (Scalar.int v) = fill_cmp-AllMask _ s values rows
  float_arm-AllMask widen (Scalar.float v) = fill_cmp-AllMask _ s values rows
  float_arm-AllMask widen _ = err-AllMask rows _

pub eval_cmp_bytes-AllMask :
    (fl : Floats) (data_type : DataType) (values : List ℕ) (op : CmpOp) (value : Scalar) (rows : ℕ)
    → AllMask rows (eval_cmp_bytes fl data_type values op value rows)
unfolding eval_cmp_bytes
eval_cmp_bytes-AllMask fl DataType.bool values op value rows = bool_arm-AllMask values op value rows
eval_cmp_bytes-AllMask fl DataType.utf8 values op value rows = err-AllMask rows _
eval_cmp_bytes-AllMask fl DataType.float32 values op value rows =
    float_arm-AllMask fl 4 values op rows fl.of_f32 value
eval_cmp_bytes-AllMask fl DataType.float64 values op value rows =
    float_arm-AllMask fl 8 values op rows (λ a. a) value
eval_cmp_bytes-AllMask fl DataType.int8 values op value rows =
    signed_arm-AllMask fl 1 values op rows value
eval_cmp_bytes-AllMask fl DataType.int16 values op value rows =
    signed_arm-AllMask fl 2 values op rows value
eval_cmp_bytes-AllMask fl DataType.int32 values op value rows =
    signed_arm-AllMask fl 4 values op rows value
eval_cmp_bytes-AllMask fl DataType.date32 values op value rows =
    signed_arm-AllMask fl 4 values op rows value
eval_cmp_bytes-AllMask fl DataType.int64 values op value rows =
    signed_arm-AllMask fl 8 values op rows value
eval_cmp_bytes-AllMask fl DataType.timestamp_us values op value rows =
    signed_arm-AllMask fl 8 values op rows value
eval_cmp_bytes-AllMask fl DataType.date64 values op value rows =
    signed_arm-AllMask fl 8 values op rows value
eval_cmp_bytes-AllMask fl DataType.uint8 values op value rows =
    unsigned_arm-AllMask fl 1 values op rows value
eval_cmp_bytes-AllMask fl DataType.uint16 values op value rows =
    unsigned_arm-AllMask fl 2 values op rows value
eval_cmp_bytes-AllMask fl DataType.uint32 values op value rows =
    unsigned_arm-AllMask fl 4 values op rows value
eval_cmp_bytes-AllMask fl DataType.uint64 values op value rows =
    unsigned_arm-AllMask fl 8 values op rows value
