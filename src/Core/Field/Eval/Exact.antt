-- ===== src/Core/Field/Eval/Exact.antt =====
-- A column of integers is compared with an integer as numbers with a sign are.
use stkoe_data.Base.{
  ℕ, zero, suc, ◌+◌, ◌*◌, ◌<◌, ◌≤◌, ◌≡◌, ◌≢◌, ◌↔◌, sym, ap, ◌∙◌, Bool, true, false, List, [], ◌∷◌,
  map, length, take, drop, drop-drop, from_le, IsBytes, ok, arith, get_or,
}
use stkoe_data.Format.DataType.{DataType, size_of, is_signed_int, is_integer}
use stkoe_data.Core.Predicate.{CmpOp, eq, ne, lt, le, gt, ge, Scalar, Holds}
use stkoe_data.Core.Field.Eval.{Floats, as_u8, words_of, unsigned_test, eval_cmp_bytes}
use stkoe_data.Core.Field.Eval.Masks.{IsMask, get_or-map, length-map}
use stkoe_data.Core.Field.Eval.Words.{
  exact, exact_scalar, IsIntegerLiteral, length-words_of, eval_cmp_bytes-words,
}

-- The word of row `i`.
abbrev pub row_word : ℕ → List ℕ → ℕ → ℕ
row_word s values i = from_le (take s (drop (i * s) values))

get_or-words_of :
    (s n : ℕ) (values : List ℕ) (i : ℕ)
    → i < n
    → get_or (words_of s n values) i 0 ≡ row_word s values i
unfolding words_of
get_or-words_of s zero values i h = absurd (omega arith)
get_or-words_of s (suc n) values zero h =
    ap (λ k. from_le (take s (drop k values))) (let e : 0 ≡ zero * s = omega arith in e)
get_or-words_of s (suc n) values (suc i) h =
    get_or-words_of s n (drop s values) i (omega arith)
    ∙ ap (λ t. from_le (take s t))
        (drop-drop (i * s) s values
          ∙ ap (λ k. drop k values) (let e : s + i * s ≡ suc i * s = omega arith in e))

-- Each operator on words decides the comparison it is named for.
unsigned_test-Holds : (op : CmpOp) (a v : ℕ) → (unsigned_test op a v ≡ true) ↔ Holds op a v
unfolding unsigned_test Holds
unsigned_test-Holds eq a v = ground arith
unsigned_test-Holds ne a v = ground arith
unsigned_test-Holds lt a v = ground arith
unsigned_test-Holds le a v = ground arith
unsigned_test-Holds gt a v = ground arith
unsigned_test-Holds ge a v = ground arith

as_u8-le : (b : Bool) → as_u8 b ≤ 1
as_u8-le true = omega arith
as_u8-le false = omega arith

as_u8-one : (b : Bool) → (as_u8 b ≡ 1) ↔ (b ≡ true)
as_u8-one true = ground arith
as_u8-one false = ground arith

map-as_u8-le :
    (g : ℕ → Bool) (words : List ℕ) (i : ℕ) → get_or (map (λ a. as_u8 (g a)) words) i 0 ≤ 1
map-as_u8-le g [] i = omega arith
map-as_u8-le g (a ∷ words) zero = as_u8-le (g a)
map-as_u8-le g (a ∷ words) (suc i) = map-as_u8-le g words i

-- A column of integers is compared with an integer literal as numbers with their signs: the mask
-- is computed, has a byte of 0 or 1 for each row, and the byte is 1 exactly where the number of the
-- row and the number of the literal are in the relation that the operator is named for, whatever
-- the width and the sign of the column and the kind of the literal, also where the literal is
-- outside the range of the column.
-- The conditions: a type of integers other than Bool, a literal of 64 bits, and a word of values
-- for each row.
pub eval_cmp_bytes-exact :
    (fl : Floats) (data_type : DataType) (values : List ℕ) (op : CmpOp) (value : Scalar) (rows : ℕ)
    → is_integer data_type ≡ true
    → data_type ≢ DataType.bool
    → IsIntegerLiteral value
    → IsBytes values
    → length values ≡ rows * size_of data_type
    → (mask : List ℕ) × (eval_cmp_bytes fl data_type values op value rows ≡ ok mask)
      × IsMask rows mask
      × ((i : ℕ)
          → i < rows
          → (get_or mask i 0 ≡ 1)
            ↔ Holds op
                (exact
                  (is_signed_int data_type)
                  (size_of data_type)
                  (row_word (size_of data_type) values i))
                (exact_scalar value))
eval_cmp_bytes-exact fl data_type values op value rows integer not_bool literal bytes sized =
    let s = size_of data_type in
    let number : ℕ → ℕ = exact (is_signed_int data_type) s in
    let test : ℕ → Bool = λ a. unsigned_test op (number a) (exact_scalar value) in
    let words = words_of s rows values in
    let mask : List ℕ = map (λ a. as_u8 (test a)) words in
    let count = length-words_of s rows values in
    (
      mask,
      eval_cmp_bytes-words fl data_type values op value rows integer not_bool literal bytes sized,
      (length-map (λ a. as_u8 (test a)) words ∙ count, map-as_u8-le test words),
      λ i h.
          let decides =
            unsigned_test-Holds op (number (row_word s values i)) (exact_scalar value) in
          let one = as_u8-one (test (row_word s values i)) in
          let e : get_or mask i 0 ≡ as_u8 (test (row_word s values i)) =
            get_or-map (λ a. as_u8 (test a)) words i (omega (arith, count))
            ∙ ap (λ a. as_u8 (test a)) (get_or-words_of s rows values i h) in
          (λ k. decides.0 (one.0 (sym e ∙ k)), λ k. e ∙ one.1 (decides.1 k)),
    )
