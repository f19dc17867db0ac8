-- ===== src/Core/Field/Stored/Reopen.antt =====
-- A chunked file is opened again.
use mathlib.Core.Path.{subst}
use native.Mathlib.Nat.{mod-eq_of_lt}
use stkoe_data.Base.{
  ℕ, ◌+◌, ◌-◌, ◌*◌, ◌^◌, ◌≤◌, ◌<◌, ◌≡◌, ◌≢◌, refl, sym, ap, ◌∙◌, List, ◌++◌, map, length, Option,
  some, ok, false, ◌>>=◌, arith, All, length-append, take_all, bit_at,
}
use stkoe_data.Format.DataType
use stkoe_data.Format.DataType.{DataType, size_of, width_bounds}
use stkoe_data.Format.Encoding
use stkoe_data.Format.Encoding.{plain}
use stkoe_data.Format.Compression
use stkoe_data.Format.Compression.{Compression}
use stkoe_data.Format.FieldHeader.{FieldHeader, to_bytes, new_uncompressed}
use stkoe_data.Format.Bitmap.{Bitmap}
use stkoe_data.Format.Column.{Column, column_length}
use stkoe_data.Codec.Compression.{Backends, IsLossless}
use stkoe_data.Core.Chunks.{IsTiling, compute_chunk_boundaries, compute_chunk_boundaries-IsTiling}
use stkoe_data.Core.Field.Create.{
  chunked_header, write_chunks, create_field_file_chunked_data, create_field_file_chunked,
  with_data,
}
use stkoe_data.Core.Field.Open.{
  Mode, Working, FieldHandle, decode_loop, chunk_rows_loop, recount, open_field_file,
}
use stkoe_data.Core.Field.Stored.Bits.{row_bit, same_view, IsTarget}
use stkoe_data.Core.Field.Stored.Loop.{
  IsShort, decode_loop-chunks, chunk_rows_loop-chunks, length-write_chunks-pos,
}
use stkoe_data.Core.Field.Stored.Headers.{length-header, from_bytes-file, chunked_header-is_chunked}
use stkoe_data.Core.Field.Stored.Whole.{
  IsColumn, file-Parts, start, start-Progress, decode_working-file, recount-target,
  open_field_file-chunks, Holds,
}

target_bit :
    (rows : ℕ) (target : Bitmap) (i : ℕ)
    → IsTarget rows target
    → row_bit (some target) i ≡ bit_at target.data' i
unfolding row_bit
target_bit rows target i h =
    ap (bit_at target.data') (let e : target.bit_offset + i ≡ i = omega (arith, h.0) in e)

module _ (b : Backends) (lossless : IsLossless b) (compression : Compression) (dt : DataType)
    (col : Column) (c : IsColumn dt col) (boundaries : List (ℕ × ℕ))
    (tiled : IsTiling 0 (column_length col) boundaries)
    (short : All
      (IsShort b lossless compression dt c.width col.values col.validity
        (column_length col)
        c.is_bytes
        c.sized
        c.is_validity
        c.few)
      boundaries) where
  abbrev header_of : ℕ → FieldHeader
  header_of nulls =
      chunked_header dt (column_length col) nulls false compression (length col.values)

  values-small : length col.values < 2 ^ 64
  values-small =
      let few = c.few in
      let narrow = width_bounds (size_of dt) c.width in
      let e : column_length col * size_of dt ≤ column_length col * 8 = grind arith in
      omega (arith, c.sized)

  row_count-eq : (nulls : ℕ) → (header_of nulls).row_count ≡ column_length col
  unfolding chunked_header new_uncompressed
  row_count-eq nulls =
      let few = c.few in
      mod-eq_of_lt (let small : column_length col < 2 ^ 32 = omega arith in small)

  header-fields :
      (nulls : ℕ)
      → ((header_of nulls).data_type ≡ DataType.id dt)
        × ((header_of nulls).encoding ≡ Encoding.id plain)
        × ((header_of nulls).compression ≡ Compression.id compression)
  unfolding chunked_header new_uncompressed
  header-fields nulls = (refl, refl, refl)

  begin : Working
  begin = start b lossless compression dt col c boundaries tiled short

  reopened :
      (chunks : List ℕ) (nulls : ℕ) (mode : Mode)
      → compression ≢ Compression.none
      → write_chunks b compression dt col.values (same_view col.validity) (size_of dt) boundaries
        ≡ ok chunks
      → (handle : FieldHandle) × (open_field_file b (to_bytes (header_of nulls) ++ chunks) mode
          ≡ ok handle)
        × Holds col boundaries handle
  unfolding begin
  reopened chunks nulls mode compressed written =
      let rows : ℕ = column_length col in
      let header : FieldHeader = header_of nulls in
      let file : List ℕ = to_bytes header ++ chunks in
      let front = length-header dt rows nulls false compression (length col.values) in
      let long = length-append (to_bytes header) chunks in
      let (work, done, decoded) =
        decode_loop-chunks b lossless compression dt c.width col.values col.validity rows c.is_bytes
          c.sized c.is_validity c.few boundaries (length file) 0 begin (to_bytes header) chunks
          tiled short written (omega (arith, long))
          (start-Progress b lossless compression dt col c boundaries tiled short) in
      let grouped =
        chunk_rows_loop-chunks b lossless compression dt c.width col.values col.validity rows
          c.is_bytes c.sized c.is_validity c.few boundaries (length file) 0 (to_bytes header) chunks
          tiled short written (omega (arith, long)) in
      let positive =
        length-write_chunks-pos b lossless compression dt c.width col.values col.validity rows
          c.is_bytes c.sized c.is_validity c.few boundaries chunks c.some_rows tiled short
          written in
      let (nulls', counted) =
        recount-target b lossless compression dt col c boundaries tiled short done.target
          done.is_target in
      let (t, n, q) = header-fields nulls in
      (
        _,
        open_field_file-chunks b file mode header (map (λ (r : ℕ × ℕ). r.1 - r.0) boundaries) work
            nulls' (omega (arith, long, front, positive))
            (from_bytes-file dt rows nulls false compression (length col.values) chunks
              values-small)
            (chunked_header-is_chunked dt rows nulls false compression (length col.values)
              compressed)
            (ap (λ k. chunk_rows_loop file (length file) k) (sym front) ∙ grouped)
            (decode_working-file b lossless compression dt col c boundaries tiled short file header
              work t n q (row_count-eq nulls)
              (ap (λ k. decode_loop b plain compression dt file (length file) k begin 0) (sym front)
                ∙ decoded))
            (ap recount done.has_bits ∙ counted),
        record {
          work = work;
          is_working = refl;
          same_values =
              sym (take_all (rows * size_of dt) work.values (omega (arith, done.allocated)))
              ∙ (done.decoded ∙ take_all (rows * size_of dt) col.values (omega (arith, c.sized)));
          same_bits = λ i h.
              ap (λ v. row_bit v i) done.has_bits
              ∙ (target_bit rows done.target i done.is_target ∙ done.bits i h);
          same_chunks = refl;
        },
      )

-- A chunked file that was created from a column is opened without an error, and its handle holds
-- the values of the column, the validity of every row, and the chunks that were cut: what
-- `decode_working` puts together from the chunks is what the column was before it was cut.
-- The conditions: lossless compressors, a compression other than `None`, a column of a type of 1,
-- 2, 4 or 8 bytes with one row at least and few enough for the `u32` fields, whose bitmap covers
-- its rows, and chunks shorter than 2^32 bytes.
pub open_field_file-create_field_file_chunked :
    (b : Backends) (lossless : IsLossless b) (compression : Compression) (dt : DataType)
    (col : Column) (c : IsColumn dt col) (chunk_offsets : Option (List ℕ))
    (boundaries : List (ℕ × ℕ)) (file : List ℕ) (mode : Mode)
    → compression ≢ Compression.none
    → compute_chunk_boundaries (column_length col) chunk_offsets ≡ ok boundaries
    → All
        (IsShort b lossless compression dt c.width col.values col.validity
          (column_length col)
          c.is_bytes
          c.sized
          c.is_validity
          c.few)
        boundaries
    → create_field_file_chunked b dt (with_data col) compression chunk_offsets ≡ ok file
    → (handle : FieldHandle) × (open_field_file b file mode ≡ ok handle)
      × Holds col boundaries handle
unfolding create_field_file_chunked
open_field_file-create_field_file_chunked b lossless compression dt col c chunk_offsets boundaries
      file mode compressed cut short e =
    let tiled =
      compute_chunk_boundaries-IsTiling (column_length col) chunk_offsets boundaries cut in
    let e' =
      subst
        (λ bs.
          (bs >>= λ boundaries. create_field_file_chunked_data b compression dt col boundaries)
          ≡ ok file)
        cut e in
    let parts = file-Parts b lossless compression dt col c boundaries tiled short file e' in
    let (handle, opens, holds) =
      reopened b lossless compression dt col c boundaries tiled short parts.chunks parts.nulls mode
        compressed parts.chunks_written in
    (handle, ap (λ f. open_field_file b f mode) parts.laid_out ∙ opens, holds)
