-- ===== src/Core/Field/Eval/Words.antt =====
-- The comparison of a column of integers with an integer, as numbers with a sign. A number is
-- moved up by 2^63, so that every `i64` and `u64` is one of ℕ.
use mathlib.Core.Path.{subst}
use native.Mathlib.Nat.{mul-div_cancel}
use stkoe_data.Base.{
  ℕ, zero, suc, ◌+◌, ◌-◌, ◌*◌, ◌/◌, ◌%◌, ◌^◌, ◌≤◌, ◌<◌, ◌≡◌, ◌≢◌, refl, sym, ap, ap₂, ◌∙◌, Bool,
  true, false, List, ◌∷◌, map, length, take, drop, replicate, from_le, from_le-lt, IsBytes,
  take-IsBytes, drop-IsBytes, length-take, length-drop, ok, Bool-cases, inl, inr, leb, ltb,
  if◌then◌else◌, arith, append-nil, ==-of_eq, le→leb, mul-mod_zero,
}
use Prim.Native.Nat.{Ordering}
use stkoe_data.Format.DataType.{DataType, size_of, is_signed_int, is_integer, IsWidth, width_bounds}
use stkoe_data.Core.Lookup.{Core}
use stkoe_data.Core.Predicate.{
  CmpOp, eq, ne, lt, le, gt, ge, matches, Scalar, boolean, int, uint, float, str,
}
use stkoe_data.Core.Field.Eval.{
  Floats, as_u8, words_of, typed_slice, unsigned_test, biased, sign_extend, fill_rows, fill_cmp,
  signed_arm, unsigned_arm, eval_cmp_bytes,
}

-- The number that a word of `s` bytes stands for, with a sign or without.
unfoldable pub exact : Bool → ℕ → ℕ → ℕ
exact true s a = if ltb a (2 ^ (8 * s - 1)) then a + 2 ^ 63 else a + 2 ^ 63 - 2 ^ (8 * s)
exact false s a = a + 2 ^ 63

-- The number that a literal stands for.
unfoldable pub exact_scalar : Scalar → ℕ
exact_scalar (int v) = if ltb v (2 ^ 63) then v + 2 ^ 63 else v - 2 ^ 63
exact_scalar (uint v) = v + 2 ^ 63
exact_scalar _ = 0

-- An integer literal of 64 bits.
unfoldable pub IsIntegerLiteral : Scalar → Type 0
IsIntegerLiteral (int v) = v < 2 ^ 64
IsIntegerLiteral (uint v) = v < 2 ^ 64
IsIntegerLiteral _ = ⊥

pub length-words_of : (s n : ℕ) (values : List ℕ) → length (words_of s n values) ≡ n
unfolding words_of
length-words_of s zero values = refl
length-words_of s (suc n) values = ap suc (length-words_of s n (drop s values))

map-words_of_ext :
    (s n : ℕ) (values : List ℕ) (f g : ℕ → ℕ)
    → IsBytes values
    → n * s ≤ length values
    → ((a : ℕ) → a < 256 ^ s → f a ≡ g a)
    → map f (words_of s n values) ≡ map g (words_of s n values)
unfolding words_of
map-words_of_ext s zero values f g bytes h e = refl
map-words_of_ext s (suc n) values f g bytes h e =
    let long : length (take s values) ≡ s = omega (arith, length-take s values) in
    ap₂ ◌∷◌
      (e _ (
        subst (λ (k : ℕ). from_le (take s values) < 256 ^ k) long
          (from_le-lt (take s values) (take-IsBytes s values bytes))))
      (map-words_of_ext s n (drop s values) f g (drop-IsBytes s values bytes)
        (omega (arith, length-drop s values)) e)

map-words_of_const :
    (s n c : ℕ) (values : List ℕ) → map (λ (a : ℕ). c) (words_of s n values) ≡ replicate n c
unfolding words_of
map-words_of_const s zero c values = refl
map-words_of_const s (suc n) c values = ap (λ t. c ∷ t) (map-words_of_const s n c (drop s values))

pub fill_cmp-words :
    (test : ℕ → Bool) (s : ℕ) (values : List ℕ) (rows : ℕ)
    → 0 < s
    → length values ≡ rows * s
    → fill_cmp test s values rows ≡ ok (map (λ a. as_u8 (test a)) (words_of s rows values))
unfolding fill_cmp typed_slice fill_rows
fill_cmp-words test s values rows pos e =
    let whole : length values % s ≡ 0 = ap (λ (l : ℕ). l % s) e ∙ mul-mod_zero rows s pos in
    let count : length values / s ≡ rows = ap (λ (l : ℕ). l / s) e ∙ mul-div_cancel rows pos in
    let long = length-words_of s rows values in
    rw
      (
        ==-of_eq (length values % s) 0 whole,
        count,
        long,
        le→leb rows rows (omega arith),
        (let none_left : rows - rows ≡ 0 = omega arith in none_left),
        append-nil (map (λ a. as_u8 (test a)) (words_of s rows values)),
      )
      refl

shifted_test :
    (op : CmpOp) (a v : ℕ) → unsigned_test op (a + 2 ^ 63) (v + 2 ^ 63) ≡ unsigned_test op a v
unfolding unsigned_test
shifted_test eq a v = ground arith
shifted_test ne a v = ground arith
shifted_test lt a v = ground arith
shifted_test le a v = ground arith
shifted_test gt a v = ground arith
shifted_test ge a v = ground arith

less_test : (op : CmpOp) (a v : ℕ) → a < v → unsigned_test op a v ≡ matches op Ordering.lt
unfolding unsigned_test matches
less_test eq a v h = ground arith
less_test ne a v h = ground arith
less_test lt a v h = ground arith
less_test le a v h = ground arith
less_test gt a v h = ground arith
less_test ge a v h = ground arith

greater_test : (op : CmpOp) (a v : ℕ) → v < a → unsigned_test op a v ≡ matches op Ordering.gt
unfolding unsigned_test matches
greater_test eq a v h = ground arith
greater_test ne a v h = ground arith
greater_test lt a v h = ground arith
greater_test le a v h = ground arith
greater_test gt a v h = ground arith
greater_test ge a v h = ground arith

-- The arms for whole columns of integers.
module _ (fl : Floats) (s : ℕ) (values : List ℕ) (rows : ℕ) (op : CmpOp) (bytes : IsBytes values)
    (sized : length values ≡ rows * s) (width : IsWidth s) where
  abbrev exact_mask : Bool → Scalar → List ℕ
  exact_mask signed value =
      map (λ a. as_u8 (unsigned_test op (exact signed s a) (exact_scalar value)))
        (words_of s rows values)

  mask-filled :
      (test : ℕ → Bool) (signed : Bool) (value : Scalar)
      → ((a : ℕ) → a < 256 ^ s → test a ≡ unsigned_test op (exact signed s a) (exact_scalar value))
      → fill_cmp test s values rows ≡ ok (exact_mask signed value)
  mask-filled test signed value e =
      fill_cmp-words test s values rows (width_bounds s width).0 sized
      ∙ ap ok (
          map-words_of_ext s rows values _ _ bytes (omega (arith, sized)) (λ a h. ap as_u8 (e a h)))

  mask-const :
      (b : Bool) (signed : Bool) (value : Scalar)
      → ((a : ℕ) → a < 256 ^ s → unsigned_test op (exact signed s a) (exact_scalar value) ≡ b)
      → ◌≡◌ {A = Core (List ℕ)} (ok (replicate rows (as_u8 b))) (ok (exact_mask signed value))
  mask-const b signed value e = ap ok (
      sym (
        map-words_of_ext s rows values _ (λ a. as_u8 b) bytes (omega (arith, sized))
          (λ a h. ap as_u8 (e a h))
        ∙ map-words_of_const s rows (as_u8 b) values))

  exact_signed :
      (a : ℕ)
      → a < 256 ^ s
      → (biased (sign_extend s a) ≡ exact true s a) × (exact true s a < 2 ^ 64)
  unfolding exact sign_extend
  exact_signed a h = elim width [
    | inl w ↦ ground (arith, w)
    | inr (inl w) ↦ ground (arith, w)
    | inr (inr (inl w)) ↦ ground (arith, w)
    | inr (inr (inr w)) ↦ ground (arith, w)
  ]

  word-lt : (a : ℕ) → a < 256 ^ s → a < 2 ^ 64
  word-lt a h = ground arith

  signed_arm-exact :
      (value : Scalar)
      → IsIntegerLiteral value
      → signed_arm fl s values op value rows ≡ ok (exact_mask true value)
  unfolding signed_arm exact_scalar IsIntegerLiteral
  signed_arm-exact (boolean v) h = absurd h
  signed_arm-exact (float v) h = absurd h
  signed_arm-exact (str v) h = absurd h
  signed_arm-exact (int v) h =
      mask-filled _ true (int v) (λ a k. ap₂ (unsigned_test op) (exact_signed a k).0 (ground arith))
  signed_arm-exact (uint v) h = elim (Bool-cases (ltb (2 ^ 63 - 1) v)) [
    | inl q ↦ rw q (
        mask-const (matches op Ordering.lt) true (uint v) (λ a k.
          less_test op (exact true s a) (v + 2 ^ 63)
            (let small = (exact_signed a k).1 in ground arith)))
    | inr q ↦ rw q (
        mask-filled _ true (uint v)
          (λ a k. ap₂ (unsigned_test op) (exact_signed a k).0 (ground arith)))
  ]

  unsigned_arm-exact :
      (value : Scalar)
      → IsIntegerLiteral value
      → unsigned_arm fl s values op value rows ≡ ok (exact_mask false value)
  unfolding unsigned_arm exact exact_scalar IsIntegerLiteral
  unsigned_arm-exact (boolean v) h = absurd h
  unsigned_arm-exact (float v) h = absurd h
  unsigned_arm-exact (str v) h = absurd h
  unsigned_arm-exact (uint v) h = mask-filled _ false (uint v) (λ a k. sym (shifted_test op a v))
  unsigned_arm-exact (int v) h = elim (Bool-cases (leb (2 ^ 63) v)) [
    | inl q ↦ rw q (
        mask-const (matches op Ordering.gt) false (int v)
          (λ a k. greater_test op (a + 2 ^ 63) _ (ground arith)))
    | inr q ↦ rw q (
        mask-filled _ false (int v)
          (λ a k. sym (ap (unsigned_test op (a + 2 ^ 63)) (ground arith) ∙ shifted_test op a v)))
  ]

-- The mask of a column of integers, by the tests of the operators.
pub eval_cmp_bytes-words :
    (fl : Floats) (data_type : DataType) (values : List ℕ) (op : CmpOp) (value : Scalar) (rows : ℕ)
    → is_integer data_type ≡ true
    → data_type ≢ DataType.bool
    → IsIntegerLiteral value
    → IsBytes values
    → length values ≡ rows * size_of data_type
    → eval_cmp_bytes fl data_type values op value rows
      ≡ ok (
          map
            (λ a. as_u8 (
              unsigned_test op
                (exact (is_signed_int data_type) (size_of data_type) a)
                (exact_scalar value)))
            (words_of (size_of data_type) rows values))
unfolding eval_cmp_bytes is_integer is_signed_int size_of
eval_cmp_bytes-words fl DataType.bool values op value rows i n h bytes sized = absurd (n refl)
eval_cmp_bytes-words fl DataType.utf8 values op value rows i n h bytes sized = cc
eval_cmp_bytes-words fl DataType.float32 values op value rows i n h bytes sized = cc
eval_cmp_bytes-words fl DataType.float64 values op value rows i n h bytes sized = cc
eval_cmp_bytes-words fl DataType.int8 values op value rows i n h bytes sized =
    signed_arm-exact fl 1 values rows op bytes sized (inl refl) value h
eval_cmp_bytes-words fl DataType.int16 values op value rows i n h bytes sized =
    signed_arm-exact fl 2 values rows op bytes sized (inr (inl refl)) value h
eval_cmp_bytes-words fl DataType.int32 values op value rows i n h bytes sized =
    signed_arm-exact fl 4 values rows op bytes sized (inr (inr (inl refl))) value h
eval_cmp_bytes-words fl DataType.date32 values op value rows i n h bytes sized =
    signed_arm-exact fl 4 values rows op bytes sized (inr (inr (inl refl))) value h
eval_cmp_bytes-words fl DataType.int64 values op value rows i n h bytes sized =
    signed_arm-exact fl 8 values rows op bytes sized (inr (inr (inr refl))) value h
eval_cmp_bytes-words fl DataType.timestamp_us values op value rows i n h bytes sized =
    signed_arm-exact fl 8 values rows op bytes sized (inr (inr (inr refl))) value h
eval_cmp_bytes-words fl DataType.date64 values op value rows i n h bytes sized =
    signed_arm-exact fl 8 values rows op bytes sized (inr (inr (inr refl))) value h
eval_cmp_bytes-words fl DataType.uint8 values op value rows i n h bytes sized =
    unsigned_arm-exact fl 1 values rows op bytes sized (inl refl) value h
eval_cmp_bytes-words fl DataType.uint16 values op value rows i n h bytes sized =
    unsigned_arm-exact fl 2 values rows op bytes sized (inr (inl refl)) value h
eval_cmp_bytes-words fl DataType.uint32 values op value rows i n h bytes sized =
    unsigned_arm-exact fl 4 values rows op bytes sized (inr (inr (inl refl))) value h
eval_cmp_bytes-words fl DataType.uint64 values op value rows i n h bytes sized =
    unsigned_arm-exact fl 8 values rows op bytes sized (inr (inr (inr refl))) value h
