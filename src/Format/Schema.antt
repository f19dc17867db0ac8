-- ===== src/Format/Schema.antt =====
-- crates/splayed-format/src/schema.rs: the names and types of the fields. A name is its bytes.
use stkoe_data.Base.{
  ℕ, suc, Bool, true, false, ◌&&◌, ◌==◌, List, [], ◌∷◌, map, Option, none, some, length, get_elem?,
  if◌then◌else◌,
}
use stkoe_data.Format.DataType.{DataType}

pub record FieldSchema : Type 0 where
  pub name : List ℕ
  pub data_type : DataType

pub record Schema : Type 0 where
  pub fields : List FieldSchema

unfoldable pub len : Schema → ℕ
len s = length s.fields

unfoldable pub is_empty : Schema → Bool
is_empty s = length s.fields == 0

-- Names are equal when their bytes are.
unfoldable pub same_name : List ℕ → List ℕ → Bool
same_name [] [] = true
same_name [] (y ∷ ys) = false
same_name (x ∷ xs) [] = false
same_name (x ∷ xs) (y ∷ ys) = (x == y) && same_name xs ys

unfoldable pub position_in : List FieldSchema → List ℕ → Option ℕ
unfolding same_name
position_in [] name = none
position_in (f ∷ fields) name =
    let rest = position_in fields name in
    if same_name f.name name then some 0 else (elim rest [ none ↦ none | some i ↦ some (suc i) ])

unfoldable pub position : Schema → List ℕ → Option ℕ
unfolding position_in
position s name = position_in s.fields name

unfoldable pub data_type_of : Schema → List ℕ → Option DataType
unfolding position
data_type_of s name = elim (position s name) [
  | none ↦ none
  | some i ↦ (elim (get_elem? s.fields i) [ none ↦ none | some f ↦ some f.data_type ])
]

unfoldable pub names : Schema → List (List ℕ)
names s = map (λ (f : FieldSchema). f.name) s.fields
