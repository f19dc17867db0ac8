-- ===== src/Format/DataType.antt =====
-- `DataType` of crates/splayed-format/src/types.rs.
use stkoe_data.Base.{ℕ, Bool, true, false, Result, ok, err, ◌==◌, if◌then◌else◌, ◌≡◌, refl, arith}
use native.Mathlib.Nat.{mul-le-mul_left}
use stkoe_data.Base.{◌⊎◌, inl, inr, ◌≤◌, ◌<◌, ◌*◌}
use stkoe_data.Format.Errors.{FormatError, unknown_data_type}

pub data DataType : Type 0 where
  bool int32 int64 float32 float64 date32 timestamp_us int8 int16 uint8 uint16 : DataType
  uint32 uint64 date64 utf8 : DataType

unfoldable pub id : DataType → ℕ
id bool = 0
id int32 = 1
id int64 = 2
id float32 = 3
id float64 = 4
id date32 = 5
id timestamp_us = 6
id int8 = 7
id int16 = 8
id uint8 = 9
id uint16 = 10
id uint32 = 11
id uint64 = 12
id date64 = 13
id utf8 = 14

unfoldable pub size_of : DataType → ℕ
size_of bool = 1
size_of int8 = 1
size_of uint8 = 1
size_of int16 = 2
size_of uint16 = 2
size_of int32 = 4
size_of uint32 = 4
size_of float32 = 4
size_of date32 = 4
size_of int64 = 8
size_of uint64 = 8
size_of float64 = 8
size_of timestamp_us = 8
size_of date64 = 8
size_of utf8 = 0

unfoldable pub is_signed_int : DataType → Bool
is_signed_int int8 = true
is_signed_int int16 = true
is_signed_int int32 = true
is_signed_int int64 = true
is_signed_int date32 = true
is_signed_int timestamp_us = true
is_signed_int date64 = true
is_signed_int _ = false

unfoldable pub is_integer : DataType → Bool
is_integer float32 = false
is_integer float64 = false
is_integer utf8 = false
is_integer _ = true

-- `TryFrom<u8>`
unfoldable pub from_id : ℕ → Result FormatError DataType
from_id n =
    if n == 0
    then ok bool
    else if n == 1
    then ok int32
    else if n == 2
    then ok int64
    else if n == 3
    then ok float32
    else if n == 4
    then ok float64
    else if n == 5
    then ok date32
    else if n == 6
    then ok timestamp_us
    else if n == 7
    then ok int8
    else if n == 8
    then ok int16
    else if n == 9
    then ok uint8
    else if n == 10
    then ok uint16
    else if n == 11
    then ok uint32
    else if n == 12
    then ok uint64
    else if n == 13
    then ok date64
    else if n == 14
    then ok utf8
    else err (unknown_data_type n)

pub from_id-id : (t : DataType) → from_id (id t) ≡ ok t
unfolding from_id id
from_id-id bool = refl
from_id-id _ = refl

-- The width of a fixed-width type.
abbrev pub IsWidth : ℕ → Type 0
IsWidth s = (s ≡ 1) ⊎ ((s ≡ 2) ⊎ ((s ≡ 4) ⊎ (s ≡ 8)))

pub size_of_cases : (t : DataType) → (IsWidth (size_of t)) ⊎ (t ≡ utf8)
unfolding size_of
size_of_cases utf8 = inr refl
size_of_cases _ = inl (ground arith)

pub width_bounds : (s : ℕ) → IsWidth s → (0 < s) × (s ≤ 8)
width_bounds s h = ground arith

pub size_of-le : (data_type : DataType) → size_of data_type ≤ 8
unfolding size_of
size_of-le data_type = ground arith

pub rows-size_of-le : (data_type : DataType) (rows : ℕ) → rows * size_of data_type ≤ rows * 8
rows-size_of-le data_type rows = mul-le-mul_left rows (size_of-le data_type)
