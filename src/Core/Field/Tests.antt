-- ===== src/Core/Field/Tests.antt =====
-- Concrete columns and masks, and the theorems applied to them.
use stkoe_data.Base.{
  ℕ, ◌^◌, ◌<◌, ◌≡◌, ◌≢◌, ◌↔◌, refl, List, [], ◌∷◌, length, true, none, some, ok, ok-injective,
  arith, IsBytes, inl, inr,
}
use stkoe_data.Base.{
  ◌≤◌, ◌/◌, ◌%◌, ◌-◌, suc, bit, get_or, bit_of_lt, Option, false, ap, sym, ◌∙◌, from_le, le_bytes,
}
use stkoe_data.Format.Encoding
use stkoe_data.Format.DataType
use stkoe_data.Format.DataType.{DataType, size_of, is_signed_int}
use stkoe_data.Format.Compression
use stkoe_data.Format.Compression.{Compression}
use stkoe_data.Format.Bitmap.{bitmap_copy_bits, view_count_ones}
use stkoe_data.Format.Bitmap.Bytes.{copy_bits, count_bits}
use stkoe_data.Codec.Encoding.{encode_values}
use stkoe_data.Codec.Chunk
use stkoe_data.Codec.Plain.{encode}
use stkoe_data.Codec.Compression.{compress}
use stkoe_data.Format.Column.{Column, column_length}
use stkoe_data.Codec.Stored.{stored, stored-IsLossless}
use stkoe_data.Core.Predicate.{lt, eq, int, uint, Predicate, all_of, negation, cmp, nil, cons}
use stkoe_data.Core.Chunks.{compute_chunk_boundaries}
use stkoe_data.Core.Field.Eval.{Floats, eval_cmp_bytes, eval_predicate_bytes}
use stkoe_data.Core.Predicate
use stkoe_data.Core.Field.Eval.Masks.{IsMask}
use stkoe_data.Core.Field.Eval.Words.{exact, exact_scalar, IsIntegerLiteral}
use stkoe_data.Core.Field.Eval.Exact.{row_word, eval_cmp_bytes-exact}
use stkoe_data.Core.Field.Eval.Rows.{Decides, holds_in_row}
use stkoe_data.Core.Field.Eval.Total.{IsCompatible, eval_predicate_bytes-Decides}
use stkoe_data.Format.FieldHeader.{FieldHeader, new_uncompressed}
use stkoe_data.Format.Column.Views.{ColumnSegment, fixed}
use stkoe_data.Core.Field.Write.{write_into_working}
use stkoe_data.Core.Field.Write.NullCount.{IsCounted, HasBytes, write_into_working-IsCounted}
use stkoe_data.Core.Field.Runs.{next_true_run}
use stkoe_data.Core.Field.Runs.Search.{mask_bit}
use stkoe_data.Core.Field.Runs.Extend.{IsNextRun, next_true_run-IsNextRun}
use stkoe_data.Core.Ranges.{RowRange}
use stkoe_data.Core.Scanner.{total}
use stkoe_data.Core.Field.Scan.{FieldScanner}
use stkoe_data.Core.Field.Scan.Limit.{collect, total-collect-le}
use stkoe_data.Core.Field.Create.{chunked_header, create_field_file_chunked, with_data, write_chunk}
use stkoe_data.Core.Field.Open.{Working, FieldHandle, read, open_field_file}
use stkoe_data.Core.Field.Stored.Bits.{IsValidity, same_view}
use stkoe_data.Core.Field.Stored.Loop.{IsShort}
use stkoe_data.Core.Field.Stored.Whole.{IsColumn, Holds}
use stkoe_data.Core.Field.Stored.Reopen.{open_field_file-create_field_file_chunked}

abbrev floats : Floats
floats = record { of_f32 = λ a. a; of_i64 = λ a. a; of_u64 = λ a. a; float_test = λ op a v. true }

-- 5, -1 and 3
abbrev shorts : List ℕ
shorts = 5 ∷ 0 ∷ 255 ∷ 255 ∷ 3 ∷ 0 ∷ []

shorts-IsBytes : IsBytes shorts
shorts-IsBytes = ground arith

not_bool : DataType.int16 ≢ DataType.bool
not_bool e = cc

eval_cmp_bytes-exact_example :
    (mask : List ℕ) × (eval_cmp_bytes floats DataType.int16 shorts lt (uint 4) 3 ≡ ok mask)
    × IsMask 3 mask
    × ((i : ℕ)
        → i < 3
        → (get_or mask i 0 ≡ 1)
          ↔ Predicate.Holds lt
              (exact
                (is_signed_int DataType.int16)
                (size_of DataType.int16)
                (row_word (size_of DataType.int16) shorts i))
              (exact_scalar (uint 4)))
unfolding size_of DataType.is_integer IsIntegerLiteral
eval_cmp_bytes-exact_example =
    eval_cmp_bytes-exact floats DataType.int16 shorts lt (uint 4) 3 refl not_bool (omega arith)
      shorts-IsBytes refl

-- Below 4, and not 3.
abbrev below : Predicate
below = all_of (cons (cmp none lt (uint 4)) (cons (negation (cmp none eq (int 3))) nil))

below-computes : eval_predicate_bytes floats DataType.int16 shorts 3 below ≡ ok (0 ∷ 1 ∷ 0 ∷ [])
unfolding eval_predicate_bytes from_le
below-computes = refl

below-IsCompatible : IsCompatible floats DataType.int16 shorts 3 below
unfolding IsCompatible eval_cmp_bytes
below-IsCompatible = ((_, refl), ((_, refl), tt))

eval_predicate_bytes-Decides_example :
    (mask : List ℕ) × (eval_predicate_bytes floats DataType.int16 shorts 3 below ≡ ok mask)
    × Decides floats DataType.int16 shorts 3
        (holds_in_row floats DataType.int16 shorts 3 below)
        mask
eval_predicate_bytes-Decides_example =
    eval_predicate_bytes-Decides floats DataType.int16 shorts 3 below below-IsCompatible

-- Rows 0 and 2 are valid.
abbrev some_column : Column
some_column = record {
  data_type = DataType.int16;
  values = shorts;
  validity = some (record { data' = 5 ∷ []; bit_offset = 0; len = 3 });
  dict = none;
}

some_column-IsColumn : IsColumn DataType.int16 some_column
unfolding column_length size_of IsValidity
some_column-IsColumn = record {
  width = inr (inl refl);
  is_bytes = shorts-IsBytes;
  sized = refl;
  is_validity = (refl, omega arith, ground arith);
  some_rows = omega arith;
  few = omega arith;
}

abbrev two_chunks : List (ℕ × ℕ)
two_chunks = (0, 2) ∷ (2, 3) ∷ []

two_chunks-computed : compute_chunk_boundaries 3 (some (0 ∷ 2 ∷ [])) ≡ ok two_chunks
unfolding compute_chunk_boundaries
two_chunks-computed = refl

created :
    (file : List ℕ) × (create_field_file_chunked stored DataType.int16
        (with_data some_column)
        Compression.lz4
        (some (0 ∷ 2 ∷ []))
      ≡ ok file)
unfolding create_field_file_chunked column_length compute_chunk_boundaries DataType.id
    bitmap_copy_bits copy_bits encode_values encode compress view_count_ones
created = (_, refl)

not_none : Compression.lz4 ≢ Compression.none
not_none e = cc

write_chunk-IsShort :
    (range : ℕ × ℕ) (n : ℕ) (written : List ℕ)
    → write_chunk stored Compression.lz4 DataType.int16 shorts
        (same_view some_column.validity)
        (size_of DataType.int16)
        range
      ≡ ok written
    → length written ≡ n
    → n < 2 ^ 32
    → IsShort stored stored-IsLossless Compression.lz4 DataType.int16 some_column-IsColumn.width
        some_column.values some_column.validity
        (column_length some_column)
        some_column-IsColumn.is_bytes
        some_column-IsColumn.sized
        some_column-IsColumn.is_validity
        some_column-IsColumn.few
        range
write_chunk-IsShort range n written e measured small chunk k =
    let same : chunk ≡ written = ok-injective (sym k ∙ e) in omega (arith, ap length same, measured)

open_field_file-create_field_file_chunked_example :
    (handle : FieldHandle) × (open_field_file stored created.0 read ≡ ok handle)
    × Holds some_column two_chunks handle
unfolding column_length size_of write_chunk encode_values encode compress bitmap_copy_bits copy_bits
    Chunk.to_bytes le_bytes
open_field_file-create_field_file_chunked_example =
    open_field_file-create_field_file_chunked stored stored-IsLossless Compression.lz4
      DataType.int16 some_column some_column-IsColumn (some (0 ∷ 2 ∷ [])) two_chunks created.0 read
      not_none two_chunks-computed
      (
        write_chunk-IsShort (0, 2) 21 _ refl refl (omega arith),
        (write_chunk-IsShort (2, 3) 19 _ refl refl (omega arith), tt),
      )
      created.1

-- A valid row and a row that is not.
abbrev some_segment : ColumnSegment
some_segment = record {
  values = fixed (7 ∷ 0 ∷ 9 ∷ 0 ∷ []);
  validity = some (record { data' = 1 ∷ []; bit_offset = 0; len = 2 });
  rows = 2;
}

abbrev some_header : FieldHeader
some_header = chunked_header DataType.int16 3 0 false Compression.lz4 6

segment_written :
    (out : Working × ℕ) × (write_into_working some_header DataType.int16
        (record { values = shorts; validity = none })
        1
        (some_segment ∷ [])
      ≡ ok out)
unfolding write_into_working bitmap_copy_bits copy_bits view_count_ones chunked_header count_bits
    new_uncompressed
segment_written = (_, refl)

write_into_working-IsCounted_example : IsCounted 3 segment_written.0.0.validity segment_written.0.1
unfolding chunked_header HasBytes IsCounted segment_written
write_into_working-IsCounted_example =
    write_into_working-IsCounted some_header DataType.int16
      (record { values = shorts; validity = none }) 1 (some_segment ∷ []) segment_written.0.0
      segment_written.0.1 (omega arith) (ground arith, tt) refl segment_written.1

beyond : (n : ℕ) → 64 ≤ n → mask_bit (6 ∷ []) n ≡ 0
unfolding mask_bit
beyond n h =
    let e : n / 64 ≡ suc (n / 64 - 1) = omega arith in
    ap (λ j. bit (n % 64) (get_or (6 ∷ []) j 0)) e
    ∙ bit_of_lt 0 (n % 64) 0 (omega arith) (omega arith)

next_true_run-IsNextRun_example :
    (run : Option (ℕ × ℕ)) × (next_true_run (6 ∷ []) 64 0 ≡ ok run) × IsNextRun (6 ∷ []) 64 0 run
next_true_run-IsNextRun_example =
    next_true_run-IsNextRun (6 ∷ []) 64 0 (ground arith, tt) (omega arith) beyond

-- Rows 0 and 2 of three rows are below 6.
abbrev some_handle : FieldHandle
some_handle = record {
  header = some_header;
  mode = read;
  backing = none;
  chunk_rows = 3 ∷ [];
  chunk_ends = 3 ∷ [];
  working = some (record { values = 5 ∷ 0 ∷ 9 ∷ 0 ∷ 3 ∷ 0 ∷ []; validity = none });
  modified = false;
}

abbrev some_scanner : FieldScanner
some_scanner = record {
  ranges = record { offset = 0; length = 3 } ∷ [];
  predicate = some (cmp none lt (int 6));
  remaining = some 2;
  range_index = 0;
  row = 0;
  mask = [];
  mask_rows = 0;
  mask_pos = 0;
  done = false;
}

scanned : (ranges : List RowRange) × (collect floats some_handle 3 4 some_scanner ≡ ok ranges)
unfolding collect chunked_header new_uncompressed DataType.from_id DataType.id Encoding.id
    Compression.id from_le
scanned = (_, refl)

total-collect-le_example : total scanned.0 ≤ 2
total-collect-le_example =
    total-collect-le floats some_handle 3 4 some_scanner 2 scanned.0 refl scanned.1
