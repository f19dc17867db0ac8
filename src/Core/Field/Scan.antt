-- ===== src/Core/Field/Scan.antt =====
-- `FieldScanner` of crates/splayed-core/src/field_file.rs: the runs of hits of a field, one by one.
pub mod Limit
use stkoe_data.Base.{
  ℕ, zero, suc, ◌+◌, ◌-◌, ◌*◌, ◌/◌, ◌%◌, ◌^◌, min, bit_and, bit_or, List, [], ◌∷◌, length, take,
  drop, replicate, get_elem?, Bool, true, false, Option, none, some, Result, ok, err, panic, guard,
  assert, ◌>>=◌, ◌>>◌, ◌==◌, leb, ltb, if◌then◌else◌,
}
use stkoe_data.Format.Layout.{header_size}
use stkoe_data.Format.DataType
use stkoe_data.Format.DataType.{DataType, size_of}
use stkoe_data.Format.FieldHeader.{FieldHeader, validity_size, is_chunked}
use stkoe_data.Format.Bitmap.{Bitmap, BitmapView, Checked, view, as_view, view_is_valid}
use stkoe_data.Core.Lookup.{Core, CoreError, invalid_state, map_err, bytes_between}
use stkoe_data.Core.Ranges.{RowRange, end, intersect, filter_intersect, source}
use stkoe_data.Core.Predicate.{Predicate}
use stkoe_data.Core.Field.Eval.{Floats, eval_predicate_bytes}
use stkoe_data.Core.Field.Open.{Working, FieldHandle}
use stkoe_data.Core.Field.Runs.{next_true_run}

abbrev pub eval_cap : ℕ
eval_cap = 2 ^ 20

-- The values and the validity bytes.
unfoldable pub uncompressed_slices : FieldHandle → Core (List ℕ × Option (List ℕ))
unfolding as_view validity_size
uncompressed_slices h = elim h.working [
  | some w ↦ elim w.validity [
    | none ↦ ok (w.values, none)
    | some b ↦ map_err (as_view b) >>= λ v. ok (w.values, some v.data')
  ]
  | none ↦ elim h.backing [
    | none ↦ err invalid_state
    | some bytes ↦ (do
      let stop = header_size + h.header.data_length
      let vlen = validity_size h.header
      guard (leb (stop + vlen) (length bytes)) invalid_state
      let data' : List ℕ = take h.header.data_length (drop header_size bytes)
      ok (data', if ltb 0 vlen then some (take vlen (drop stop bytes)) else none))
  ]
]

unfoldable pub working_ref : FieldHandle → Core Working
working_ref h = elim h.working [ none ↦ err invalid_state | some w ↦ ok w ]

-- `map(BitmapView::new).transpose()`
unfoldable pub view_bits : Option (List ℕ) → ℕ → ℕ → Core (Option BitmapView)
unfolding view
view_bits none offset len = ok none
view_bits (some bits) offset len = map_err (view bits offset len) >>= λ v. ok (some v)

-- The raw bytes of the bitmap, whatever its offset.
unfoldable pub raw_bits : Option Bitmap → Core (Option (List ℕ))
unfolding as_view
raw_bits none = ok none
raw_bits (some b) = map_err (as_view b) >>= λ v. ok (some v.data')

unfoldable pub range_views : FieldHandle → ℕ → ℕ → Core (List ℕ × Option BitmapView)
unfolding uncompressed_slices working_ref view_bits raw_bits is_chunked size_of
range_views h offset len = do
  data_type ← map_err (DataType.from_id h.header.data_type)
  let size = size_of data_type
  if is_chunked h.header
      then (do
        work ← working_ref h
        values ← bytes_between work.values (offset * size) ((offset + len) * size)
        bits ← raw_bits work.validity
        validity ← view_bits bits offset len
        ok (values, validity))
      else (do
        (data', bits) ← uncompressed_slices h
        values ← bytes_between data' (offset * size) ((offset + len) * size)
        validity ← view_bits bits offset len
        ok (values, validity))

pub record FieldScanner : Type 0 where
  pub ranges : List RowRange
  pub predicate : Option Predicate
  pub remaining : Option ℕ
  pub range_index : ℕ
  pub row : ℕ
  pub mask : List ℕ
  pub mask_rows : ℕ
  pub mask_pos : ℕ
  pub done : Bool

unfoldable pub scan : FieldHandle → List RowRange → Option Predicate → Option ℕ → FieldScanner
unfolding filter_intersect source
scan h ranges predicate limit =
    let whole : RowRange = record { offset = 0; length = h.header.row_count } in
    record {
      ranges = elim ranges [ [] ↦ whole ∷ [] | ◌∷◌ r rest ↦ filter_intersect whole (r ∷ rest) ];
      predicate = predicate;
      remaining = limit;
      range_index = 0;
      row = 0;
      mask = [];
      mask_rows = 0;
      mask_pos = 0;
      done = false;
    }

-- A row that is NULL is no hit; row `i` is the first of the mask.
unfoldable pub keep_valid : BitmapView → ℕ → List ℕ → Core (List ℕ)
unfolding view_is_valid
keep_valid v i [] = ok []
keep_valid v i (slot ∷ hit) = do
  valid ← map_err (view_is_valid v i)
  rest ← keep_valid v (i + 1) hit
  ok (bit_and slot (if valid then 1 else 0) ∷ rest)

-- The bytes of a word's rows as bits, from bit `j` on.
unfoldable pub pack_word : ℕ → List ℕ → ℕ
pack_word j [] = 0
pack_word j (bit ∷ hit) = bit_or (bit * 2 ^ j % 2 ^ 64) (pack_word (j + 1) hit)

unfoldable pub pack_words : ℕ → List ℕ → List ℕ
unfolding pack_word
pack_words zero hit = []
pack_words (suc words) hit = pack_word 0 (take 64 hit) ∷ pack_words words (drop 64 hit)

-- The range, cut off at what the limit leaves, and the scanner behind it.
unfoldable pub take_limited : FieldScanner → RowRange → RowRange × FieldScanner
take_limited s range = elim s.remaining [
  | none ↦ (range, s)
  | some rem ↦
      if leb rem range.length
      then (
        record { offset = range.offset; length = rem },
        record s { remaining = some 0; done = true },
      )
      else (range, record s { remaining = some (rem - range.length) })
]

-- The next range with a row that is left; a round passes a range.
unfoldable pub advance_to : FieldScanner → Option RowRange → FieldScanner → FieldScanner
unfolding end
advance_to s none rest = record s { done = true }
advance_to s (some range) rest =
    let row' = if ltb s.row range.offset then range.offset else s.row in
    if ltb row' (end range) then record s { row = row' } else rest

unfoldable pub advance : ℕ → FieldScanner → FieldScanner
unfolding advance_to
advance zero s = record s { done = true }
advance (suc fuel) s =
    let rest = advance fuel (record s { range_index = s.range_index + 1; row = 0 }) in
    advance_to s (get_elem? s.ranges s.range_index) rest

module _ (fl : Floats) (h : FieldHandle) where
  -- The hits of the rows from the current row on.
  unfoldable pub evaluate_hits : FieldScanner → ℕ → Core (List ℕ)
  unfolding range_views eval_predicate_bytes keep_valid
  evaluate_hits s rows = do
    (values, validity) ← range_views h s.row rows
    data_type ← map_err (DataType.from_id h.header.data_type)
    hit ← elim s.predicate [
      | none ↦ ok (replicate rows 1)
      | some p ↦ eval_predicate_bytes fl data_type values rows p
    ]
    elim validity [ none ↦ ok hit | some v ↦ keep_valid v 0 hit ]

  unfoldable pub evaluate_range : FieldScanner → ℕ → Core FieldScanner
  unfolding evaluate_hits pack_words
  evaluate_range s rows = evaluate_hits s rows >>= λ hit.
      ok (record s { mask = pack_words ((rows + 63) / 64) hit; mask_rows = rows; mask_pos = 0 })

  -- The next segment of the current range.
  unfoldable pub evaluate_segment : FieldScanner → Option RowRange → Core FieldScanner
  unfolding evaluate_range end
  evaluate_segment s none = panic
  evaluate_segment s (some range) = evaluate_range s (min (end range) (s.row + eval_cap) - s.row)

  -- The part of `next` behind a segment without a hit that is left.
  unfoldable pub next_segment : FieldScanner → Core FieldScanner
  unfolding advance evaluate_segment
  next_segment s =
      let s1 =
        advance (suc (length s.ranges))
          (record s { row = s.row + s.mask_rows; mask_rows = 0; mask_pos = 0 }) in
      if s1.done then ok s1 else evaluate_segment s1 (get_elem? s1.ranges s1.range_index)

  unfoldable pub take_run : FieldScanner → Option (ℕ × ℕ) → Option (RowRange × FieldScanner)
  unfolding take_limited
  take_run s none = none
  take_run s (some (start, stop)) = some (
      take_limited (record s { mask_pos = stop })
        (record { offset = s.row + start; length = stop - start }))

  -- The next run of hits in the mask, where there is one.
  unfoldable pub next_in_mask : FieldScanner → Core (Option (RowRange × FieldScanner))
  unfolding next_true_run take_run
  next_in_mask s =
      if ltb s.mask_pos s.mask_rows
      then (next_true_run s.mask s.mask_rows s.mask_pos >>= λ run. ok (take_run s run))
      else ok none

  -- The range that is produced, and the scanner behind it. A round evaluates a segment; that the
  -- rounds run out is `panic`, so that no result is due to them.
  unfoldable pub next : ℕ → FieldScanner → Core (Option RowRange × FieldScanner)
  unfolding next_in_mask next_segment
  next zero s = panic
  next (suc fuel) s = if s.done then ok (none, s) else (do
    found ← next_in_mask s
    elim found [
      | some (range, s') ↦ ok (some range, s')
      | none ↦ next_segment s >>= λ s'. next fuel s'
    ])
