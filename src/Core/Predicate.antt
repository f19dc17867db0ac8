-- ===== src/Core/Predicate.antt =====
-- Comparisons and predicates of crates/splayed-core/src/scan.rs. An `i64` and a float are bit
-- patterns, a string is its bytes.
use Prim.Native.Nat.{Ordering, compare}
use stkoe_data.Base.{
  ℕ, ◌≡◌, ◌↔◌, ◌<◌, ◌≤◌, ◌≢◌, Bool, true, false, arith, List, [], ◌∷◌, ◌++◌, ◌==◌, ◌&&◌, ◌||◌,
  Option, none, some, if◌then◌else◌,
}

pub data CmpOp : Type 0 where
  eq ne lt le gt ge : CmpOp

unfoldable pub matches : CmpOp → Ordering → Bool
matches eq Ordering.eq = true
matches eq _ = false
matches ne Ordering.eq = false
matches ne _ = true
matches lt Ordering.lt = true
matches lt _ = false
matches le Ordering.gt = false
matches le _ = true
matches gt Ordering.gt = true
matches gt _ = false
matches ge Ordering.lt = false
matches ge _ = true

unfoldable pub Holds : CmpOp → ℕ → ℕ → Type 0
Holds eq a b = a ≡ b
Holds ne a b = a ≢ b
Holds lt a b = a < b
Holds le a b = a ≤ b
Holds gt a b = b < a
Holds ge a b = b ≤ a

-- Each operator decides the comparison it is named for.
pub matches-compare : (op : CmpOp) (a b : ℕ) → (matches op (compare a b) ≡ true) ↔ Holds op a b
unfolding matches Holds
matches-compare eq a b = ground arith
matches-compare ne a b = ground arith
matches-compare lt a b = ground arith
matches-compare le a b = ground arith
matches-compare gt a b = ground arith
matches-compare ge a b = ground arith

-- Strings are equal when their bytes are.
unfoldable pub text_eq : List ℕ → List ℕ → Bool
text_eq [] [] = true
text_eq [] (y ∷ ys) = false
text_eq (x ∷ xs) [] = false
text_eq (x ∷ xs) (y ∷ ys) = (x == y) && text_eq xs ys

pub data Scalar : Type 0 where
  boolean : Bool → Scalar
  int uint float : ℕ → Scalar
  str : List ℕ → Scalar

mutual
  pub data Predicate : Type 0 where
    all_of any_of : Predicates → Predicate
    negation : Predicate → Predicate
    cmp : Option (List ℕ) → CmpOp → Scalar → Predicate

  -- The children of `And` and `Or`.
  pub data Predicates : Type 0 where
    nil : Predicates
    cons : Predicate → Predicates → Predicates

unfoldable pub mentions : List ℕ → List (List ℕ) → Bool
unfolding text_eq
mentions name [] = false
mentions name (f ∷ names) = text_eq f name || mentions name names

unfoldable pub push_field : Option (List ℕ) → List (List ℕ) → List (List ℕ)
unfolding mentions
push_field none out = out
push_field (some name) out = if mentions name out then out else out ++ (name ∷ [])

mutual
  unfolding push_field

  -- The names of the fields, each once and in the order in which they first occur.
  pub fields : Predicate → List (List ℕ) → List (List ℕ)
  fields (all_of children) out = fields_all children out
  fields (any_of children) out = fields_all children out
  fields (negation inner) out = fields inner out
  fields (cmp field op value) out = push_field field out

  pub fields_all : Predicates → List (List ℕ) → List (List ℕ)
  fields_all nil out = out
  fields_all (cons p children) out = fields_all children (fields p out)

unfoldable pub all_mentioned : List (List ℕ) → List (List ℕ) → Bool
unfolding mentions
all_mentioned [] allowed = true
all_mentioned (f ∷ names) allowed = mentions f allowed && all_mentioned names allowed

-- Does the predicate refer to no field but the allowed ones?
unfoldable pub references_only : Predicate → List (List ℕ) → Bool
unfolding fields all_mentioned
references_only p allowed = all_mentioned (fields p []) allowed
