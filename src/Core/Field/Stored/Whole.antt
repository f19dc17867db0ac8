-- ===== src/Core/Field/Stored/Whole.antt =====
-- A chunked file as a whole: it is created from a column and opened.
use mathlib.Core.Path.{subst}
use native.Mathlib.Nat.{mul-div_cancel}
use stkoe_data.Base.{
  ℕ, ◌+◌, ◌-◌, ◌*◌, ◌/◌, ◌^◌, ◌<◌, ◌≡◌, refl, sym, ap, ap₂, ◌∙◌, List, ◌++◌, map, length, take,
  replicate, length-replicate, true, false, some, ok, guard, ◌==◌, arith, lt→ltb, le→leb, ==-of_eq,
  IsBytes, All, >>=-eq-ok, ok-injective,
}
use stkoe_data.Format.DataType
use stkoe_data.Format.DataType.{DataType, size_of, IsWidth, width_bounds}
use stkoe_data.Format.Encoding
use stkoe_data.Format.Encoding.{plain}
use stkoe_data.Format.Compression
use stkoe_data.Format.Compression.{Compression}
use stkoe_data.Format.FieldHeader
use stkoe_data.Format.FieldHeader.{FieldHeader, to_bytes, new_uncompressed, is_chunked}
use stkoe_data.Format.Bitmap.{Bitmap, zeros, null_count, count_ones, bitmap_count_ones}
use stkoe_data.Format.Bitmap.Bytes.{count_bits}
use stkoe_data.Format.Bitmap.Shape.{replicate-IsBytes}
use stkoe_data.Format.Column.{Column, column_length, column_null_count}
use stkoe_data.Codec.Compression.{Backends, IsLossless}
use stkoe_data.Codec.Chunk.{as_u32}
use stkoe_data.Core.Lookup.{map_err}
use stkoe_data.Core.Chunks.{IsTiling}
use stkoe_data.Core.Field.Create.{
  chunked_header, view_of, per_row, write_chunks, create_field_file_chunked_data,
}
use stkoe_data.Core.Field.Open.{
  Mode, Working, FieldHandle, decode_loop, decode_working, chunk_rows_loop, running_sums, recount,
  open_chunks, open_field_file,
}
use stkoe_data.Core.Field.Stored.Bits.{row_bit, IsValidity, IsTarget, same_view, view_of-ok}
use stkoe_data.Core.Field.Stored.Step.{Progress}
use stkoe_data.Core.Field.Stored.Loop.{IsShort}

-- The column that is stored: `rows` rows of a type of fixed width.
pub record IsColumn (dt : DataType) (col : Column) : Type 0 where
  pub width : IsWidth (size_of dt)
  pub is_bytes : IsBytes col.values
  pub sized : length col.values ≡ column_length col * size_of dt
  pub is_validity : IsValidity (column_length col) col.validity
  pub some_rows : 0 < column_length col
  pub few : 12 * column_length col + 1 < 2 ^ 32

module _ (b : Backends) (lossless : IsLossless b) (compression : Compression) (dt : DataType)
    (col : Column) (c : IsColumn dt col) (boundaries : List (ℕ × ℕ))
    (tiled : IsTiling 0 (column_length col) boundaries)
    (short : All
      (IsShort b lossless compression dt c.width col.values col.validity
        (column_length col)
        c.is_bytes
        c.sized
        c.is_validity
        c.few)
      boundaries) where
  abbrev rows : ℕ
  rows = column_length col

  abbrev RowProgress : ℕ → Working → Type 0
  RowProgress =
      Progress b lossless compression dt c.width col.values col.validity rows c.is_bytes c.sized
        c.is_validity c.few

  -- The chunks that were written behind the header.
  pub record Parts (file : List ℕ) : Type 0 where
    pub chunks : List ℕ
    pub nulls : ℕ
    pub chunks_written :
        write_chunks b compression dt col.values (same_view col.validity) (size_of dt) boundaries
        ≡ ok chunks
    pub laid_out :
        file
        ≡ to_bytes (chunked_header dt rows nulls false compression (length col.values)) ++ chunks

  per_row-size_of : per_row col ≡ size_of dt
  unfolding per_row
  per_row-size_of =
      let pos = c.some_rows in
      let e : length col.values ≡ size_of dt * column_length col = omega (arith, c.sized) in
      rw (lt→ltb 0 (column_length col) pos)
        (ap (λ (l : ℕ). l / column_length col) e ∙ mul-div_cancel (size_of dt) pos)

  pub file-Parts :
      (file : List ℕ)
      → create_field_file_chunked_data b compression dt col boundaries ≡ ok file
      → Parts file
  unfolding create_field_file_chunked_data
  file-Parts file e =
      let (u, same, e1) = >>=-eq-ok (guard (DataType.id col.data_type == DataType.id dt) _) _ e in
      let (bits, viewed, e2) = >>=-eq-ok (view_of col.validity) _ e1 in
      let (chunks, written, e3) =
        >>=-eq-ok (write_chunks b compression dt col.values bits (per_row col) boundaries) _ e2 in
      let (nulls, counted, e4) = >>=-eq-ok (map_err (column_null_count col)) _ e3 in
      let bits' : bits ≡ same_view col.validity =
        ok-injective (sym viewed ∙ view_of-ok rows col.validity c.is_validity) in
      let per_row' = per_row-size_of in
      record {
        chunks = chunks;
        nulls = nulls;
        chunks_written =
            ap₂ (λ v w. write_chunks b compression dt col.values v w boundaries) (sym bits')
              (sym per_row')
            ∙ written;
        laid_out = sym (ok-injective e4);
      }

  unfoldable pub start : Working
  start = record { values = replicate (rows * size_of dt) 0; validity = some (zeros rows) }

  pub start-Progress : RowProgress 0 start
  unfolding zeros start
  start-Progress = record {
    allocated = length-replicate (rows * size_of dt) 0;
    decoded =
        subst (λ k. take k (replicate (rows * size_of dt) 0) ≡ take k col.values)
          (let e : 0 ≡ 0 * size_of dt = omega arith in e) refl;
    target = zeros rows;
    has_bits = refl;
    is_target = (
      refl,
      refl,
      omega (arith, length-replicate {A = ℕ} ((rows + 7) / 8) 0),
      replicate-IsBytes ((rows + 7) / 8) 0 (omega arith),
    );
    bits = λ i q. absurd (omega arith);
  }

  pub decode_working-file :
      (file : List ℕ) (h : FieldHeader) (work : Working)
      → h.data_type ≡ DataType.id dt
      → h.encoding ≡ Encoding.id plain
      → h.compression ≡ Compression.id compression
      → h.row_count ≡ rows
      → decode_loop b plain compression dt file (length file) 64 start 0 ≡ ok (work, rows)
      → decode_working b file h ≡ ok work
  unfolding decode_working start
  decode_working-file file h work t n q r e =
      let some_bits = c.some_rows in
      rw
        (
          t,
          DataType.from_id-id dt,
          n,
          Encoding.from_id-id plain,
          q,
          Compression.from_id-id compression,
          r,
          lt→ltb 0 ((rows + 7) / 8) (omega arith),
          e,
          ==-of_eq rows rows refl,
        )
        refl

  pub recount-target :
      (target : Bitmap) → IsTarget rows target → (n : ℕ) × (recount (some target) ≡ ok n)
  unfolding recount null_count count_ones bitmap_count_ones
  recount-target target (off, len, covered, bytes) =
      let some_rows = c.some_rows in
      (
        as_u32 (target.len - count_bits target.data' target.bit_offset target.len),
        rw
            (
              (let e : (target.len == 0) ≡ false = ground (arith, len) in e),
              le→leb (target.bit_offset + target.len) (length target.data' * 8)
                  (omega (arith, off, len, covered)),
            )
            refl,
      )

longer : (a n : ℕ) → a < n → (n == a) ≡ false
longer a n h = ground arith

-- `open_field_file` from the results of what it calls, on a file with chunks.
pub open_field_file-chunks :
    (b : Backends) (file : List ℕ) (mode : Mode) (h : FieldHeader) (groups : List ℕ)
    (work : Working) (n : ℕ)
    → 64 < length file
    → FieldHeader.from_bytes (take 64 file) ≡ ok h
    → is_chunked h ≡ true
    → chunk_rows_loop file (length file) 64 ≡ ok (groups, length file)
    → decode_working b file h ≡ ok work
    → recount work.validity ≡ ok n
    → open_field_file b file mode
      ≡ ok (record {
        header = record h { null_count = n };
        mode = mode;
        backing = some file;
        chunk_rows = groups;
        chunk_ends = running_sums 0 groups;
        working = some work;
        modified = false;
      })
unfolding open_field_file open_chunks
open_field_file-chunks b file mode h groups work n long p q g d r =
    rw
      (
        le→leb 64 (length file) (omega arith),
        p,
        longer 64 (length file) long,
        q,
        g,
        ==-of_eq (length file) (length file) refl,
        d,
        r,
      )
      refl

-- What is to be found in the handle of a file that was created from a column.
pub record Holds (col : Column) (boundaries : List (ℕ × ℕ)) (handle : FieldHandle) : Type 0 where
  pub work : Working
  pub is_working : handle.working ≡ some work
  pub same_values : work.values ≡ col.values
  pub same_bits : (i : ℕ) → i < column_length col → row_bit work.validity i ≡ row_bit col.validity i
  pub same_chunks : handle.chunk_rows ≡ map (λ (r : ℕ × ℕ). r.1 - r.0) boundaries
