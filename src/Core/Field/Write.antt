-- ===== src/Core/Field/Write.antt =====
-- `write_field_handle` of crates/splayed-core/src/field_file.rs: rows of an open FIELD file are
-- written over.
pub mod Counts
pub mod NullCount
use stkoe_data.Base.{
  ℕ, zero, suc, ◌+◌, ◌-◌, ◌*◌, ◌/◌, ◌%◌, ◌^◌, List, [], ◌∷◌, ◌++◌, length, take, drop, replicate,
  Bool, true, false, not, ◌&&◌, ◌||◌, Option, none, some, Result, ok, err, panic, guard, assert,
  ◌>>=◌, ◌>>◌, ◌==◌, leb, ltb, if◌then◌else◌,
}
use stkoe_data.Format.Layout.{header_size}
use stkoe_data.Format.DataType
use stkoe_data.Format.DataType.{DataType, size_of}
use stkoe_data.Format.FieldHeader
use stkoe_data.Format.FieldHeader.{FieldHeader, has_validity, validity_size, is_chunked}
use stkoe_data.Format.Bitmap.{
  Bitmap, BitmapView, Checked, ones, bitmap_fill_bits, bitmap_copy_bits, copy_bits_from, set_range,
  view_count_ones,
}
use stkoe_data.Format.Column.Views.{ColumnSegment, ColumnView, raw_values_bytes}
use stkoe_data.Core.Lookup.{Core, CoreError, invalid, invalid_state, map_err}
use stkoe_data.Core.Field.Open.{Mode, read, write, Working, FieldHandle, copy_from_slice}

-- A string column has keys of 4 bytes.
unfoldable pub width_of : DataType → ℕ
unfolding size_of
width_of DataType.utf8 = 4
width_of t = size_of t

-- Does the validity of a segment have fewer ones than bits?
unfoldable pub has_nulls : ColumnSegment → Core Bool
unfolding view_count_ones
has_nulls s = elim s.validity [
  | none ↦ ok false
  | some b ↦ map_err (view_count_ones b) >>= λ n. ok (ltb n b.len)
]

unfoldable pub any_nulls : List ColumnSegment → Core Bool
unfolding has_nulls
any_nulls [] = ok false
any_nulls (s ∷ segments) =
    has_nulls s >>= λ found. elim found [ true ↦ ok true | false ↦ any_nulls segments ]

-- `null_delta` is the sum of the ones before less the sum of the ones after.
pub record Delta : Type 0 where
  pub olds : ℕ
  pub news : ℕ

abbrev pub add_delta : Delta → ℕ → ℕ → Delta
add_delta d old new' = record { olds = d.olds + old; news = d.news + new' }

-- `(null_count as i64 + null_delta).max(0) as u32`
abbrev pub apply_delta : ℕ → Delta → ℕ
apply_delta null_count d = (null_count + d.olds - d.news) % 2 ^ 32

-- `raw_values_bytes().expect(..)`
unfoldable pub expect_raw : ColumnSegment → Core (List ℕ)
unfolding raw_values_bytes
expect_raw s = elim (raw_values_bytes s) [ none ↦ panic | some v ↦ ok v ]

-- The validity of a segment goes into that of the field, if the field has one.
unfoldable pub write_validity :
    Option Bitmap → Option BitmapView → ℕ → ℕ → Delta → Core (Option Bitmap × Delta)
unfolding copy_bits_from set_range
write_validity none src row rows d = ok (none, d)
write_validity (some full) (some src) row rows d = do
  (full', old, new') ← map_err (copy_bits_from full row src rows)
  ok (some full', add_delta d old new')
write_validity (some full) none row rows d = do
  (full', old) ← map_err (set_range full row rows true)
  ok (some full', add_delta d old rows)

-- The loop of `write_into_working`.
unfoldable pub write_segments :
    ℕ → List ColumnSegment → ℕ → Working → Delta → Core (Working × Delta)
unfolding expect_raw copy_from_slice write_validity
write_segments width [] row work d = ok (work, d)
write_segments width (s ∷ segments) row work d = do
  raw ← expect_raw s
  values' ← copy_from_slice work.values (row * width) ((row + s.rows) * width) raw
  (validity', d') ← write_validity work.validity s.validity row s.rows d
  write_segments width segments (row + s.rows) (record { values = values'; validity = validity' })
      d'

-- A bitmap is made when a NULL is written to a field without one.
unfoldable pub with_bits : Bool → Working → ℕ → Working
unfolding ones
with_bits needs_bits work row_count = record work {
  validity = elim work.validity [
    | some b ↦ some b
    | none ↦ if needs_bits then some (ones row_count) else none
  ];
}

-- The working values, and the null count, behind the write.
unfoldable pub write_into_working :
    FieldHeader → DataType → Working → ℕ → List ColumnSegment → Core (Working × ℕ)
unfolding any_nulls with_bits write_segments width_of
write_into_working header data_type work offset segments = do
  needs_bits ← any_nulls segments
  (work', d) ←
      write_segments (width_of data_type) segments offset
        (with_bits needs_bits work header.row_count) (record { olds = 0; news = 0 })
  ok (work', apply_delta header.null_count d)

-- The values and the validity region of a plain file.
pub record Slices : Type 0 where
  pub data' : List ℕ
  pub bits : List ℕ

unfoldable pub uncompressed_slices_mut : FieldHeader → List ℕ → Core Slices
unfolding validity_size
uncompressed_slices_mut header bytes = do
  let stop = header_size + header.data_length
  guard (leb (stop + validity_size header) (length bytes)) invalid_state
  ok (record {
    data' = take header.data_length (drop header_size bytes);
    bits = take (validity_size header) (drop stop bytes);
  })

-- The validity of a segment goes into the validity region, if there is one.
unfoldable pub write_region :
    Bool → List ℕ → Option BitmapView → ℕ → ℕ → Delta → Core (List ℕ × Delta)
unfolding bitmap_copy_bits bitmap_fill_bits
write_region false bits src row rows d = ok (bits, d)
write_region true bits (some src) row rows d = do
  (bits', old, new') ← map_err (bitmap_copy_bits bits row src.data' src.bit_offset rows)
  ok (bits', add_delta d old new')
write_region true bits none row rows d = do
  (bits', old) ← map_err (bitmap_fill_bits bits row rows true)
  ok (bits', add_delta d old rows)

-- The loop of `write_into_mmap`.
unfoldable pub write_mapped :
    Bool → ℕ → List ColumnSegment → ℕ → Slices → Delta → Core (Slices × Delta)
unfolding expect_raw copy_from_slice write_region
write_mapped has_validity width [] row slices d = ok (slices, d)
write_mapped has_validity width (s ∷ segments) row slices d = do
  raw ← expect_raw s
  data' ← copy_from_slice slices.data' (row * width) ((row + s.rows) * width) raw
  (bits', d') ← write_region has_validity slices.bits s.validity row s.rows d
  write_mapped has_validity width segments (row + s.rows) (record { data' = data'; bits = bits' })
      d'

-- Does the validity of a segment have fewer ones than the segment has rows?
unfoldable pub lacks_rows : ColumnSegment → Core Bool
unfolding view_count_ones
lacks_rows s = elim s.validity [
  | none ↦ ok false
  | some b ↦ map_err (view_count_ones b) >>= λ n. ok (ltb n s.rows)
]

-- Is a segment with NULLs written to a field without a validity region?
unfoldable pub refuses_nulls : Bool → List ColumnSegment → Core Bool
unfolding lacks_rows
refuses_nulls true segments = ok false
refuses_nulls false [] = ok false
refuses_nulls false (s ∷ segments) =
    lacks_rows s >>= λ found. elim found [ true ↦ ok true | false ↦ refuses_nulls false segments ]

-- The bytes of the file, and the null count, behind the write.
unfoldable pub write_into_mmap :
    FieldHeader → DataType → List ℕ → ℕ → List ColumnSegment → Core (List ℕ × ℕ)
unfolding refuses_nulls uncompressed_slices_mut write_mapped width_of has_validity validity_size
write_into_mmap header data_type bytes offset segments = do
  refused ← refuses_nulls (has_validity header) segments
  guard (not refused) invalid
  slices ← uncompressed_slices_mut header bytes
  (slices', d) ←
      write_mapped (has_validity header) (width_of data_type) segments offset slices
        (record { olds = 0; news = 0 })
  let behind = header_size + header.data_length + validity_size header
  let bytes' = take header_size bytes ++ (slices'.data' ++ (slices'.bits ++ drop behind bytes))
  ok (bytes', if has_validity header then apply_delta header.null_count d else header.null_count)

-- `set_len` cuts the file off, or adds zeros.
abbrev set_len : ℕ → List ℕ → List ℕ
set_len total bytes = take total (bytes ++ replicate (total - length bytes) 0)

unfoldable pub expand_header_only_file : FieldHandle → List ℕ → List ℕ
unfolding validity_size
expand_header_only_file h bytes =
    set_len (header_size + h.header.data_length + validity_size h.header) bytes

-- The first bytes of the file are the header again.
abbrev with_header : FieldHeader → List ℕ → List ℕ
with_header header bytes = FieldHeader.to_bytes header ++ drop header_size bytes

unfoldable pub require_write : Mode → Core (Unit {0})
require_write write = ok tt
require_write read = err invalid_state

-- The values of the chunks behind the write.
unfoldable pub write_chunked :
    FieldHandle → DataType → Option Working → ℕ → List ColumnSegment → Core FieldHandle
unfolding write_into_working
write_chunked h data_type none offset segments = panic
write_chunked h data_type (some work) offset segments = do
  (work', nulls) ← write_into_working h.header data_type work offset segments
  ok (record h { header = record h.header { null_count = nulls }; working = some work' })

-- The map behind the write; a header-only file is expanded first.
unfoldable pub write_plain :
    FieldHandle → DataType → Option (List ℕ) → ℕ → List ColumnSegment → Core FieldHandle
unfolding write_into_mmap expand_header_only_file
write_plain h data_type none offset segments = err invalid_state
write_plain h data_type (some bytes) offset segments = do
  let expanded : List ℕ = elim h.working [ none ↦ bytes | some w ↦ expand_header_only_file h bytes ]
  (bytes', nulls) ← write_into_mmap h.header data_type expanded offset segments
  ok (record h {
    header = record h.header { null_count = nulls };
    backing = some bytes';
    working = none;
  })

-- `generation += 1`, and the header goes to the front of the map.
unfoldable pub after_write : FieldHandle → FieldHandle
after_write h =
    let header = record h.header { generation = (h.header.generation + 1) % 2 ^ 64 } in
    record h {
      header = header;
      backing = elim h.backing [ none ↦ none | some bytes ↦ some (with_header header bytes) ];
      modified = true;
    }

unfoldable pub write_field_handle : FieldHandle → ℕ → ColumnView → Core FieldHandle
unfolding require_write write_chunked write_plain after_write is_chunked
write_field_handle h offset data' = do
  require_write h.mode
  data_type ← map_err (DataType.from_id h.header.data_type)
  guard (DataType.id data'.data_type == DataType.id data_type) invalid
  guard (ltb (offset + data'.length') (2 ^ 64)) invalid
  guard (leb (offset + data'.length') h.header.row_count) invalid
  if data'.length' == 0 then ok h else (do
    h' ←
        (if is_chunked h.header
          then write_chunked h data_type h.working offset data'.segments
          else write_plain h data_type h.backing offset data'.segments)
    ok (after_write h'))
