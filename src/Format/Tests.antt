-- ===== src/Format/Tests.antt =====
-- Concrete headers and bitmaps, and the theorems applied to them.
use stkoe_data.Format.Bitmap.Count.{ones_in, count_bits-ones_in}
use stkoe_data.Format.Bitmap.Bytes.{count_bits}
use stkoe_data.Base.{
  ℕ, ◌+◌, ◌-◌, ◌*◌, ◌/◌, ◌≡◌, ◌↔◌, ◌≤◌, ◌<◌, List, [], ◌∷◌, ◌++◌, true, false, some, ok, ◌>>=◌,
  ◌>>◌, arith, if◌then◌else◌,
}
use stkoe_data.Base.{bit_at, IsBytes, refl, le_bytes, from_le, none}
use stkoe_data.Format.Column.Views.{ColumnView, dict, repeat_dict, slice_rows, string_at, sum_rows}
use stkoe_data.Format.Column.Slices.{string_at-slice_rows}
use stkoe_data.Format.DataType
use stkoe_data.Format.DataType.{int16}
use stkoe_data.Format.TimeType
use stkoe_data.Format.TimeType.{date32}
use stkoe_data.Format.FieldHeader
use stkoe_data.Format.FieldHeader.{FieldHeader}
use stkoe_data.Format.FieldHeader.Laws.{
  from_bytes-to_bytes_field, from_bytes-new_uncompressed, has_validity-set_has_validity,
}
use stkoe_data.Format.MetaHeader
use stkoe_data.Format.MetaHeader.{MetaHeader}
use stkoe_data.Format.MetaHeader.Laws.{from_bytes-to_bytes_meta, validate-new_header}
use stkoe_data.Format.SymIndexRecord
use stkoe_data.Format.SymIndexRecord.{SymIndexRecord, from_bytes-to_bytes_sym, global_row-row_range}
use stkoe_data.Format.Bitmap.{BitmapView, view_is_valid, slice}
use stkoe_data.Format.Bitmap.Bytes.{fill_bits, copy_bits}
use stkoe_data.Format.Bitmap.Fill.{within, as_bit, fill_bits-bits}
use stkoe_data.Format.Bitmap.Copy.{copy_bits-bits}
use stkoe_data.Format.Bitmap.Views.{view_is_valid-slice}

abbrev field_header : FieldHeader
field_header = record {
  magic = 1;
  version = 2;
  flags = 3;
  data_type = 4;
  encoding = 0;
  compression = 1;
  reserved0 = 0;
  generation = 7;
  row_count = 100;
  null_count = 5;
  reserved1 = 0;
  reserved2 = 0;
  data_length = 200;
  validity_offset = 264;
  reserved3 = 0;
}

from_bytes-to_bytes_field_example :
    FieldHeader.from_bytes (FieldHeader.to_bytes field_header ++ (9 ∷ []))
    ≡ (FieldHeader.validate field_header >> ok field_header)
from_bytes-to_bytes_field_example = from_bytes-to_bytes_field field_header (9 ∷ []) (record {
  magic = omega arith;
  version = omega arith;
  flags = omega arith;
  data_type = omega arith;
  encoding = omega arith;
  compression = omega arith;
  reserved0 = omega arith;
  generation = omega arith;
  row_count = omega arith;
  null_count = omega arith;
  reserved1 = omega arith;
  reserved2 = omega arith;
  data_length = omega arith;
  validity_offset = omega arith;
  reserved3 = omega arith;
})

abbrev plain_header : FieldHeader
plain_header = FieldHeader.new_uncompressed int16 7 100 5 true

from_bytes-new_uncompressed_example :
    (FieldHeader.from_bytes (FieldHeader.to_bytes plain_header ++ (9 ∷ [])) ≡ ok plain_header)
    × (FieldHeader.has_validity plain_header ≡ true)
    × (plain_header.validity_offset ≡ 64 + 100 * DataType.size_of int16)
from_bytes-new_uncompressed_example =
    from_bytes-new_uncompressed int16 7 100 5 true (9 ∷ []) (omega arith) (omega arith)
      (omega arith)

has_validity-set_has_validity_example :
    (FieldHeader.has_validity (FieldHeader.set_has_validity field_header false) ≡ false)
    × ((FieldHeader.set_has_validity field_header false).flags / 2 ≡ 3 / 2)
has_validity-set_has_validity_example =
    has_validity-set_has_validity field_header false (omega arith)

abbrev meta_header : MetaHeader
meta_header = MetaHeader.new_header date32 7 3 1 3 76 84 96

from_bytes-to_bytes_meta_example :
    MetaHeader.from_bytes (MetaHeader.to_bytes meta_header ++ (9 ∷ []))
    ≡ (MetaHeader.validate meta_header >> ok meta_header)
unfolding MetaHeader.new_header TimeType.id
from_bytes-to_bytes_meta_example = from_bytes-to_bytes_meta meta_header (9 ∷ []) (record {
  magic = omega arith;
  version = omega arith;
  flags = omega arith;
  time_type = omega arith;
  reserved0 = omega arith;
  generation = omega arith;
  time_count = omega arith;
  sym_count = omega arith;
  row_count = omega arith;
  reserved1 = omega arith;
  sym_dict_offset = omega arith;
  sym_index_offset = omega arith;
  file_size = omega arith;
})

validate-new_header_example :
    (MetaHeader.validate meta_header ≡ ok tt)
    × (MetaHeader.time_type_size meta_header ≡ TimeType.size_of date32)
validate-new_header_example = validate-new_header date32 7 3 1 3 76 84 96

abbrev sym : SymIndexRecord
sym = record { time_start = 10; time_count = 5; row_start = 100 }

from_bytes-to_bytes_sym_example :
    SymIndexRecord.from_bytes (SymIndexRecord.to_bytes sym ++ (9 ∷ [])) ≡ ok sym
from_bytes-to_bytes_sym_example =
    from_bytes-to_bytes_sym sym (9 ∷ []) (record { times = omega arith; rows = omega arith })

global_row-row_range_example :
    ((t : ℕ) → ((row : ℕ) × (SymIndexRecord.global_row sym t ≡ some row)) ↔ ((10 ≤ t) × (t < 15)))
    × ((t u row later : ℕ)
        → SymIndexRecord.global_row sym t ≡ some row
        → SymIndexRecord.global_row sym u ≡ some later
        → (t < u) ↔ (row < later))
    × ((row : ℕ)
        → ((t : ℕ) × (SymIndexRecord.global_row sym t ≡ some row))
          ↔ (((SymIndexRecord.row_range sym).0 ≤ row) × (row < (SymIndexRecord.row_range sym).1)))
global_row-row_range_example =
    global_row-row_range sym (record { times = omega arith; rows = omega arith })

abbrev bits : List ℕ
bits = 0b10110101 ∷ 0b01100011 ∷ 0b11110000 ∷ []

bits-IsBytes : IsBytes bits
bits-IsBytes = ground arith

fill_bits-bits_example :
    bit_at (fill_bits bits 5 14 false) 9 ≡ (if within 5 14 9 then as_bit false else bit_at bits 9)
fill_bits-bits_example = fill_bits-bits bits 5 14 false 9 (omega arith)

copy_bits-bits_example :
    bit_at (copy_bits (0 ∷ 0 ∷ 0 ∷ []) 3 bits 6 15) 9
    ≡ (if within 3 15 9 then bit_at bits (6 + (9 - 3)) else bit_at (0 ∷ 0 ∷ 0 ∷ []) 9)
copy_bits-bits_example = copy_bits-bits bits bits-IsBytes (0 ∷ 0 ∷ 0 ∷ []) 3 6 15 9 (omega arith)

abbrev rows : BitmapView
rows = record { data' = bits; bit_offset = 2; len = 20 }

view_is_valid-slice_example :
    (slice rows 4 10 >>= λ w. view_is_valid w 3) ≡ view_is_valid rows (4 + 3)
view_is_valid-slice_example =
    view_is_valid-slice rows 4 10 3 (omega arith) (omega arith) (omega arith)

count_bits-ones_in_example : count_bits (255 ∷ 15 ∷ 7 ∷ []) 5 14 ≡ ones_in (255 ∷ 15 ∷ 7 ∷ []) 5 14
count_bits-ones_in_example =
    count_bits-ones_in (255 ∷ 15 ∷ 7 ∷ []) 5 14 (ground arith) (omega arith)

-- Two rows with keys 1 and 0 of the strings "a" and "bc", and two rows of "z".
abbrev offsets : List ℕ
offsets = le_bytes 8 0 ++ (le_bytes 8 1 ++ le_bytes 8 3)

abbrev letters : ColumnView
letters = record {
  data_type = DataType.utf8;
  segments =
      record {
        values = dict (le_bytes 4 1 ++ le_bytes 4 0) offsets (b'a' ∷ b'b' ∷ b'c' ∷ []);
        validity = none;
        rows = 2;
      }
      ∷ (record {
        values = repeat_dict (le_bytes 8 0 ++ le_bytes 8 1) (b'z' ∷ []) 0;
        validity = none;
        rows = 2;
      }
          ∷ []);
  length' = 4;
}

letters_sliced : (sliced : ColumnView) × (slice_rows letters 1 2 ≡ ok sliced)
unfolding slice_rows le_bytes
letters_sliced = (_, refl)

string_at-slice_rows_example :
    (letters_sliced.0.length' ≡ 2)
    × ((i : ℕ)
        → i < 2
        → string_at (λ text. true) letters_sliced.0 i ≡ string_at (λ text. true) letters (1 + i))
unfolding sum_rows
string_at-slice_rows_example =
    string_at-slice_rows (λ text. true) letters letters_sliced.0 1 2 refl letters_sliced.1

string_of_row : string_at (λ text. true) letters 0 ≡ ok (some (b'b' ∷ b'c' ∷ []))
unfolding string_at le_bytes from_le
string_of_row = refl
