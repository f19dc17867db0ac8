-- ===== src/Format/Column/Views.antt =====
-- `ColumnSegment` and `ColumnView` of crates/splayed-format/src/column.rs: a column that borrows
-- the bytes of its segments. A slice out of bounds is `panic`.
use stkoe_data.Base.{
  ℕ, ◌+◌, ◌-◌, ◌*◌, ◌/◌, ◌%◌, min, max, List, [], ◌∷◌, length, take, drop, from_le, Bool, not, ◌||◌,
  Option, none, some, ok, err, guard, assert, ◌>>=◌, ◌>>◌, ◌==◌, leb, ltb, if◌then◌else◌,
}
use stkoe_data.Format.Errors.{size_mismatch, invalid_layout}
use stkoe_data.Format.DataType.{DataType, size_of}
use stkoe_data.Format.Bitmap.{BitmapView, Checked, view, view_null_count}

pub data ColumnValues : Type 0 where
  fixed : List ℕ → ColumnValues
  dict : List ℕ → List ℕ → List ℕ → ColumnValues
  repeat_dict : List ℕ → List ℕ → ℕ → ColumnValues

pub record ColumnSegment : Type 0 where
  pub values : ColumnValues
  pub validity : Option BitmapView
  pub rows : ℕ

pub record ColumnView : Type 0 where
  pub data_type : DataType
  pub segments : List ColumnSegment
  pub length' : ℕ

unfoldable pub fixed_segment : DataType → List ℕ → Option BitmapView → ℕ → Checked ColumnSegment
unfolding size_of
fixed_segment data_type values validity rows = do
  let expected = rows * size_of data_type
  guard (length values == expected) (size_mismatch expected (length values))
  ok (record { values = fixed values; validity = validity; rows = rows })

-- Not empty, and a multiple of 8 bytes.
abbrev pub is_offsets : List ℕ → Bool
is_offsets dict_offsets = not ((length dict_offsets == 0) || not (length dict_offsets % 8 == 0))

unfoldable pub repeat_dict_segment :
    List ℕ → List ℕ → ℕ → Option BitmapView → ℕ → Checked ColumnSegment
repeat_dict_segment dict_offsets dict_strings dict_index validity rows = do
  guard (is_offsets dict_offsets) invalid_layout
  guard (ltb dict_index (length dict_offsets / 8 - 1)) invalid_layout
  ok (record {
    values = repeat_dict dict_offsets dict_strings dict_index;
    validity = validity;
    rows = rows;
  })

unfoldable pub dict_segment :
    List ℕ → List ℕ → List ℕ → Option BitmapView → ℕ → Checked ColumnSegment
dict_segment keys dict_offsets dict_strings validity rows = do
  guard (length keys == rows * 4) (size_mismatch (rows * 4) (length keys))
  guard (is_offsets dict_offsets) invalid_layout
  ok (record { values = dict keys dict_offsets dict_strings; validity = validity; rows = rows })

unfoldable pub fixed_bytes : ColumnSegment → Option (List ℕ)
fixed_bytes s = elim s.values [
  | fixed v ↦ some v
  | dict keys offsets strings ↦ none
  | repeat_dict offsets strings index ↦ none
]

unfoldable pub raw_values_bytes : ColumnSegment → Option (List ℕ)
raw_values_bytes s = elim s.values [
  | fixed v ↦ some v
  | dict keys offsets strings ↦ some keys
  | repeat_dict offsets strings index ↦ none
]

unfoldable pub segment_null_count : ColumnSegment → Checked ℕ
unfolding view_null_count
segment_null_count s = elim s.validity [ none ↦ ok 0 | some v ↦ view_null_count v ]

unfoldable pub sum_rows : List ColumnSegment → ℕ
sum_rows [] = 0
sum_rows (s ∷ segments) = s.rows + sum_rows segments

-- `ColumnView::new`
unfoldable pub view_of_segments : DataType → List ColumnSegment → Checked ColumnView
unfolding sum_rows
view_of_segments data_type [] = err invalid_layout
view_of_segments data_type (s ∷ segments) =
    ok
      (record { data_type = data_type; segments = s ∷ segments; length' = sum_rows (s ∷ segments) })

unfoldable pub from_one : DataType → List ℕ → Option BitmapView → ℕ → Checked ColumnView
unfolding fixed_segment view_of_segments
from_one data_type values validity rows =
    fixed_segment data_type values validity rows >>= λ s. view_of_segments data_type (s ∷ [])

unfoldable pub empty : DataType → ColumnView
empty data_type = record {
  data_type = data_type;
  segments = record { values = fixed []; validity = none; rows = 0 } ∷ [];
  length' = 0;
}

unfoldable pub sum_null_counts : List ColumnSegment → Checked ℕ
unfolding segment_null_count
sum_null_counts [] = ok 0
sum_null_counts (s ∷ segments) = do
  n ← segment_null_count s
  rest ← sum_null_counts segments
  ok (n + rest)

unfoldable pub column_view_null_count : ColumnView → Checked ℕ
unfolding sum_null_counts
column_view_null_count c = sum_null_counts c.segments

-- `&bytes[from..to]`
abbrev pub part_of : List ℕ → ℕ → ℕ → Checked (List ℕ)
part_of bytes from to = do
  assert (leb from to)
  assert (leb to (length bytes))
  ok (take (to - from) (drop from bytes))

-- The validity of `n` rows from the local row `local_lo` on: the bits of the raw bytes, whatever
-- the offset of the view.
unfoldable pub slice_validity : Option BitmapView → ℕ → ℕ → Checked (Option BitmapView)
unfolding view
slice_validity none local_lo n = ok none
slice_validity (some b) local_lo n = view b.data' local_lo n >>= λ v. ok (some v)

-- `n` rows of the values from the local row `local_lo` on.
unfoldable pub slice_values :
    DataType → ColumnValues → ℕ → ℕ → Option BitmapView → Checked ColumnSegment
unfolding fixed_segment dict_segment repeat_dict_segment size_of
slice_values data_type (fixed v) local_lo n validity = do
  bytes ← part_of v (local_lo * size_of data_type) ((local_lo + n) * size_of data_type)
  fixed_segment data_type bytes validity n
slice_values data_type (dict keys offsets strings) local_lo n validity = do
  kb ← part_of keys (local_lo * 4) ((local_lo + n) * 4)
  dict_segment kb offsets strings validity n
slice_values data_type (repeat_dict offsets strings index) local_lo n validity =
    repeat_dict_segment offsets strings index validity n

unfoldable pub slice_segment : DataType → ColumnSegment → ℕ → ℕ → Checked ColumnSegment
unfolding slice_validity slice_values
slice_segment data_type s local_lo n =
    slice_validity s.validity local_lo n >>= λ v. slice_values data_type s.values local_lo n v

-- The loop of `slice_rows`: `seg_start` is the first row of the segment.
unfoldable pub slice_loop : DataType → List ColumnSegment → ℕ → ℕ → ℕ → Checked (List ColumnSegment)
unfolding slice_segment
slice_loop data_type [] seg_start pos end = ok []
slice_loop data_type (s ∷ segments) seg_start pos end =
    if leb end pos
    then ok []
    else (let seg_end = seg_start + s.rows in
        let lo = max pos seg_start in
        let hi = min end seg_end in
        if ltb lo hi
        then (do
          first ← slice_segment data_type s (lo - seg_start) (hi - lo)
          rest ← slice_loop data_type segments seg_end hi end
          ok (first ∷ rest))
        else slice_loop data_type segments seg_end pos end)

unfoldable pub slice_rows : ColumnView → ℕ → ℕ → Checked ColumnView
unfolding slice_loop view_of_segments empty
slice_rows c offset len = do
  guard (leb (offset + len) c.length') invalid_layout
  if len == 0 then ok (empty c.data_type) else (do
    segments ← slice_loop c.data_type c.segments 0 offset (offset + len)
    view_of_segments c.data_type segments)

-- The string between two offsets; `none` stands for text that is not UTF-8.
module _ (is_utf8 : List ℕ → Bool) where
  unfoldable pub string_between : List ℕ → ℕ → ℕ → Checked (Option (List ℕ))
  string_between strings lo hi =
      if ltb (length strings) hi
      then ok none
      else (do text ← part_of strings lo hi; ok (if is_utf8 text then some text else none))

  -- The string of row `pos` of a segment.
  unfoldable pub segment_string : ColumnValues → ℕ → Checked (Option (List ℕ))
  unfolding string_between
  segment_string (fixed v) pos = ok none
  segment_string (dict keys offsets strings) pos =
      if ltb (length keys) (pos * 4 + 4) then ok none else (do
        kb ← part_of keys (pos * 4) (pos * 4 + 4)
        let key = from_le kb
        if ltb (length offsets) ((key + 2) * 8) then ok none else (do
          lo ← part_of offsets (key * 8) (key * 8 + 8)
          hi ← part_of offsets ((key + 1) * 8) ((key + 1) * 8 + 8)
          string_between strings (from_le lo) (from_le hi)))
  segment_string (repeat_dict offsets strings index) pos = do
    lo ← part_of offsets (index * 8) (index * 8 + 8)
    hi ← part_of offsets (index * 8 + 8) (index * 8 + 16)
    string_between strings (from_le lo) (from_le hi)

  unfoldable pub string_in : List ColumnSegment → ℕ → Checked (Option (List ℕ))
  unfolding segment_string
  string_in [] pos = ok none
  string_in (s ∷ segments) pos =
      if ltb pos s.rows then segment_string s.values pos else string_in segments (pos - s.rows)

  unfoldable pub string_at : ColumnView → ℕ → Checked (Option (List ℕ))
  unfolding string_in
  string_at c row = string_in c.segments row
