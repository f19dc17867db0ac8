-- ===== src/Format/Bitmap.antt =====
-- crates/splayed-format/src/bitmap.rs: validity bitmaps, bit `i` for row `i`, lowest bit first.
-- `assert!`, `debug_assert!` and an index out of bounds are `panic`.
pub mod Bytes
pub mod Fill
pub mod Copy
pub mod Views
pub mod Count
pub mod Shape
pub mod Ones
use stkoe_data.Base.{
  ℕ, ◌+◌, ◌-◌, ◌*◌, ◌/◌, ◌%◌, ◌^◌, bit_and, bit_or, List, [], length, replicate, get_or, set,
}
use stkoe_data.Base.{
  Bool, true, false, Result, ok, err, panic, guard, assert, ◌>>=◌, ◌>>◌, ◌==◌, leb, ltb,
  if◌then◌else◌,
}
use stkoe_data.Format.Errors.{FormatError, invalid_layout}
use stkoe_data.Format.Bitmap.Bytes.{count_bits, fill_bits, copy_bits}

pub record BitmapView : Type 0 where
  pub data' : List ℕ
  pub bit_offset : ℕ
  pub len : ℕ

pub record Bitmap : Type 0 where
  pub data' : List ℕ
  pub bit_offset : ℕ
  pub len : ℕ

abbrev pub Checked : Type 0 → Type 0
Checked = Result FormatError

unfoldable pub bitmap_count_ones : List ℕ → ℕ → ℕ → Checked ℕ
bitmap_count_ones bits bit_off len =
    if len == 0
    then ok 0
    else assert (leb (bit_off + len) (length bits * 8)) >> ok (count_bits bits bit_off len)

-- The changed buffer, and the number of ones before.
unfoldable pub bitmap_fill_bits : List ℕ → ℕ → ℕ → Bool → Checked (List ℕ × ℕ)
unfolding bitmap_count_ones
bitmap_fill_bits dst bit_off len valid = if len == 0 then ok (dst, 0) else (do
  assert (leb (bit_off + len) (length dst * 8))
  old ← bitmap_count_ones dst bit_off len
  ok (fill_bits dst bit_off len valid, old))

-- The changed buffer, and the number of ones before and after.
unfoldable pub bitmap_copy_bits : List ℕ → ℕ → List ℕ → ℕ → ℕ → Checked (List ℕ × ℕ × ℕ)
unfolding bitmap_count_ones
bitmap_copy_bits dst dst_off src src_off len = if len == 0 then ok (dst, 0, 0) else (do
  assert (leb (dst_off + len) (length dst * 8))
  assert (leb (src_off + len) (length src * 8))
  old ← bitmap_count_ones dst dst_off len
  let dst' = copy_bits dst dst_off src src_off len
  new' ← bitmap_count_ones dst' dst_off len
  ok (dst', old, new'))

unfoldable pub view : List ℕ → ℕ → ℕ → Checked BitmapView
view data' bit_offset len = do
  guard (leb ((bit_offset + len + 7) / 8) (length data')) invalid_layout
  ok (record { data' = data'; bit_offset = bit_offset; len = len })

unfoldable pub view_is_valid : BitmapView → ℕ → Checked Bool
view_is_valid v i = do
  assert (ltb i v.len)
  let bit = v.bit_offset + i
  assert (ltb (bit / 8) (length v.data'))
  ok (bit_and (get_or v.data' (bit / 8) 0 / 2 ^ (bit % 8)) 1 == 1)

unfoldable pub view_count_ones : BitmapView → Checked ℕ
view_count_ones v = bitmap_count_ones v.data' v.bit_offset v.len

unfoldable pub view_all_valid : BitmapView → Checked Bool
view_all_valid v = view_count_ones v >>= λ n. ok (n == v.len)

unfoldable pub view_null_count : BitmapView → Checked ℕ
view_null_count v = view_count_ones v >>= λ n. ok (v.len - n)

unfoldable pub to_packed_bytes : BitmapView → Checked (List ℕ)
to_packed_bytes v = do
  (out, old, new') ← bitmap_copy_bits (replicate ((v.len + 7) / 8) 0) 0 v.data' v.bit_offset v.len
  ok out

unfoldable pub slice : BitmapView → ℕ → ℕ → Checked BitmapView
unfolding view
slice v offset len = do
  guard (leb (offset + len) v.len) invalid_layout
  view v.data' (v.bit_offset + offset) len

unfoldable pub zeros : ℕ → Bitmap
zeros len = record { data' = replicate ((len + 7) / 8) 0; bit_offset = 0; len = len }

unfoldable pub ones : ℕ → Bitmap
ones len =
    let bytes = replicate ((len + 7) / 8) 255 in
    record {
      data' = if len % 8 == 0 then bytes else set bytes (length bytes - 1) (2 ^ (len % 8) - 1);
      bit_offset = 0;
      len = len;
    }

unfoldable pub from_bytes : List ℕ → ℕ → Checked Bitmap
from_bytes bytes len = do
  assert (length bytes == (len + 7) / 8)
  ok (record { data' = bytes; bit_offset = 0; len = len })

unfoldable pub set_valid : Bitmap → ℕ → Bool → Checked Bitmap
set_valid b i valid = do
  assert (ltb i b.len)
  let bit = b.bit_offset + i
  assert (ltb (bit / 8) (length b.data'))
  let byte = get_or b.data' (bit / 8) 0
  let byte' = if valid then bit_or byte (2 ^ (bit % 8)) else bit_and byte (255 - 2 ^ (bit % 8))
  ok (record { data' = set b.data' (bit / 8) byte'; bit_offset = b.bit_offset; len = b.len })

-- The `expect` panics where the layout is not valid.
unfoldable pub as_view : Bitmap → Checked BitmapView
unfolding view
as_view b = elim (view b.data' b.bit_offset b.len) [ ok v ↦ ok v | err e ↦ panic | panic ↦ panic ]

unfoldable pub is_valid : Bitmap → ℕ → Checked Bool
is_valid b i = as_view b >>= λ v. view_is_valid v i

unfoldable pub extract_bits : Bitmap → ℕ → ℕ → Checked (List ℕ)
extract_bits b offset len = do
  guard (leb (offset + len) b.len) invalid_layout
  (out, old, new') ←
      bitmap_copy_bits (replicate ((len + 7) / 8) 0) 0 b.data' (b.bit_offset + offset) len
  ok out

unfoldable pub count_ones : Bitmap → Checked ℕ
count_ones b = bitmap_count_ones b.data' b.bit_offset b.len

unfoldable pub null_count : Bitmap → Checked ℕ
null_count b = count_ones b >>= λ n. ok (b.len - n)

unfoldable pub copy_bits_from : Bitmap → ℕ → BitmapView → ℕ → Checked (Bitmap × ℕ × ℕ)
copy_bits_from b offset src len = do
  assert (leb (offset + len) b.len)
  (data', old, new') ← bitmap_copy_bits b.data' (b.bit_offset + offset) src.data' src.bit_offset len
  ok (record { data' = data'; bit_offset = b.bit_offset; len = b.len }, old, new')

unfoldable pub set_range : Bitmap → ℕ → ℕ → Bool → Checked (Bitmap × ℕ)
set_range b offset len valid = do
  assert (leb (offset + len) b.len)
  (data', old) ← bitmap_fill_bits b.data' (b.bit_offset + offset) len valid
  ok (record { data' = data'; bit_offset = b.bit_offset; len = b.len }, old)
