-- ===== src/Core/Field/Stored/Bits.antt =====
-- The validity bits of a chunk, on the way out and on the way back.
use stkoe_data.Base.{
  ℕ, ◌+◌, ◌-◌, ◌*◌, ◌/◌, ◌≤◌, ◌<◌, ◌≡◌, refl, ap, ap₂, ◌∙◌, List, length, replicate,
  length-replicate, true, Option, none, some, ok, if◌then◌else◌, arith, le→leb, IsBytes, bit_at,
}
use stkoe_data.Format.Bitmap.{
  Bitmap, BitmapView, view, as_view, slice, to_packed_bytes, copy_bits_from, set_range,
}
use stkoe_data.Format.Bitmap.Bytes.{copy_bits, fill_bits}
use stkoe_data.Format.Bitmap.Fill.{within, fill_bits-bits}
use stkoe_data.Format.Bitmap.Copy.{copy_bits-bits}
use stkoe_data.Format.Bitmap.Shape.{
  length-copy_bits, length-fill_bits, copy_bits-IsBytes, fill_bits-IsBytes, replicate-IsBytes,
  bitmap_copy_bits-ok, bitmap_fill_bits-ok,
}
use stkoe_data.Core.Field.Create.{view_of, packed_slice}
use stkoe_data.Core.Field.Open.{merge_validity}

-- Bit of row `i`; without a bitmap every row is valid.
unfoldable pub row_bit : Option Bitmap → ℕ → ℕ
unfolding bit_at
row_bit none i = 1
row_bit (some b) i = bit_at b.data' (b.bit_offset + i)

unfoldable pub packed_bit : Option (List ℕ) → ℕ → ℕ
unfolding bit_at
packed_bit none i = 1
packed_bit (some bytes) i = bit_at bytes i

-- The bitmap of a column of `rows` rows.
unfoldable pub IsValidity : ℕ → Option Bitmap → Type 0
IsValidity rows none = Unit {0}
IsValidity rows (some b) =
    (b.len ≡ rows) × (b.bit_offset + rows ≤ length b.data' * 8) × IsBytes b.data'

-- The packed bits of `rows` rows.
unfoldable pub IsPacked : ℕ → Option (List ℕ) → Type 0
IsPacked rows none = Unit {0}
IsPacked rows (some bytes) = (length bytes ≡ (rows + 7) / 8) × IsBytes bytes

-- A bitmap that is decoded into.
abbrev pub IsTarget : ℕ → Bitmap → Type 0
IsTarget rows b =
    (b.bit_offset ≡ 0) × (b.len ≡ rows) × (rows ≤ length b.data' * 8) × IsBytes b.data'

abbrev pub same_view : Option Bitmap → Option BitmapView
same_view none = none
same_view (some b) = some (record { data' = b.data'; bit_offset = b.bit_offset; len = b.len })

pub view_of-ok :
    (rows : ℕ) (validity : Option Bitmap)
    → IsValidity rows validity
    → view_of validity ≡ ok (same_view validity)
unfolding view_of as_view view IsValidity
view_of-ok rows none h = refl
view_of-ok rows (some b) h =
    let (len, covered, bytes) = h in
    rw
      (
        le→leb ((b.bit_offset + b.len + 7) / 8) (length b.data') (omega (arith, len, covered)),
        view_of,
        as_view,
      )
      refl

pub packed_slice-bits :
    (rows : ℕ) (validity : Option Bitmap) (lo k : ℕ)
    → IsValidity rows validity
    → 0 < k
    → lo + k ≤ rows
    → (packed : Option (List ℕ)) × (packed_slice (same_view validity) lo k ≡ ok packed)
      × IsPacked k packed
      × ((i : ℕ) → i < k → packed_bit packed i ≡ row_bit validity (lo + i))
unfolding packed_slice slice view to_packed_bytes IsValidity IsPacked packed_bit row_bit
packed_slice-bits rows none lo k h pos inside = (none, refl, tt, λ i q. refl)
packed_slice-bits rows (some b) lo k h pos inside =
    let (len, covered, bytes) = h in
    let zeros' : List ℕ = replicate ((k + 7) / 8) 0 in
    let packed : List ℕ = copy_bits zeros' 0 b.data' (b.bit_offset + lo) k in
    let long : length zeros' ≡ (k + 7) / 8 = length-replicate ((k + 7) / 8) 0 in
    (
      some packed,
      rw
          (
            le→leb (lo + k) b.len (omega (arith, len)),
            le→leb ((b.bit_offset + lo + k + 7) / 8) (length b.data') (omega (arith, len, covered)),
            bitmap_copy_bits-ok zeros' 0 b.data' (b.bit_offset + lo) k bytes pos
                (omega (arith, long)) (omega (arith, covered)),
          )
          refl,
      (
        length-copy_bits zeros' 0 b.data' (b.bit_offset + lo) k bytes ∙ long,
        copy_bits-IsBytes b.data' bytes zeros' 0 (b.bit_offset + lo) k
            (replicate-IsBytes ((k + 7) / 8) 0 (omega arith)),
      ),
      λ i q.
          copy_bits-bits b.data' bytes zeros' 0 (b.bit_offset + lo) k i (omega (arith, long))
          ∙ inside_bit i k _ _ q
          ∙ ap (bit_at b.data')
              (let e : b.bit_offset + lo + (i - 0) ≡ b.bit_offset + (lo + i) = omega arith in e),
    )
  where
    inside_bit : (i k x y : ℕ) → i < k → (if within 0 k i then x else y) ≡ x
    inside_bit i k x y q = ground arith

-- The bits of `k` rows from `lo` on are those of `src`, the other bits stay.
pub record Merged (rows : ℕ) (dst dst' : Bitmap) (src : Option (List ℕ)) (lo k : ℕ) : Type 0 where
  pub is_target : IsTarget rows dst'
  pub bits :
      (n : ℕ)
      → bit_at dst'.data' n
        ≡ (if within lo k n then packed_bit src (n - lo) else bit_at dst.data' n)

pub merge_validity-Merged :
    (rows : ℕ) (dst : Bitmap) (src : Option (List ℕ)) (lo k : ℕ)
    → IsTarget rows dst
    → IsPacked k src
    → 0 < k
    → lo + k ≤ rows
    → (dst' : Bitmap) × (merge_validity (some dst) src lo k ≡ ok (some dst'))
      × Merged rows dst dst' src lo k
unfolding merge_validity view copy_bits_from set_range IsPacked packed_bit
merge_validity-Merged rows dst (some bytes) lo k (off, len, covered, h) (sized, packed) pos inside =
    let out : List ℕ = copy_bits dst.data' (dst.bit_offset + lo) bytes 0 k in
    let long = length-copy_bits dst.data' (dst.bit_offset + lo) bytes 0 k packed in
    (
      record { data' = out; bit_offset = dst.bit_offset; len = dst.len },
      rw
          (
            le→leb ((0 + k + 7) / 8) (length bytes) (omega (arith, sized)),
            le→leb (lo + k) dst.len (omega (arith, len)),
            bitmap_copy_bits-ok dst.data' (dst.bit_offset + lo) bytes 0 k packed pos
                (omega (arith, off, covered)) (omega (arith, sized)),
          )
          refl,
      record {
        is_target = (
          off,
          len,
          omega (arith, long, covered),
          copy_bits-IsBytes bytes packed dst.data' (dst.bit_offset + lo) 0 k h,
        );
        bits = λ n.
            copy_bits-bits bytes packed dst.data' (dst.bit_offset + lo) 0 k n
              (omega (arith, off, covered))
            ∙ ap₂ (λ (o : ℕ) (j : ℕ). if within o k n then bit_at bytes j else bit_at dst.data' n)
                (let e : dst.bit_offset + lo ≡ lo = omega (arith, off) in e)
                (let e : 0 + (n - (dst.bit_offset + lo)) ≡ n - lo = omega (arith, off) in e);
      },
    )
merge_validity-Merged rows dst none lo k (off, len, covered, h) packed pos inside =
    let out : List ℕ = fill_bits dst.data' (dst.bit_offset + lo) k true in
    let long = length-fill_bits dst.data' (dst.bit_offset + lo) k true in
    (
      record { data' = out; bit_offset = dst.bit_offset; len = dst.len },
      rw
          (
            le→leb (lo + k) dst.len (omega (arith, len)),
            bitmap_fill_bits-ok dst.data' (dst.bit_offset + lo) k true pos
                (omega (arith, off, covered)),
          )
          refl,
      record {
        is_target = (
          off,
          len,
          omega (arith, long, covered),
          fill_bits-IsBytes dst.data' (dst.bit_offset + lo) k true h,
        );
        bits = λ n.
            fill_bits-bits dst.data' (dst.bit_offset + lo) k true n (omega (arith, off, covered))
            ∙ ap (λ (o : ℕ). if within o k n then 1 else bit_at dst.data' n)
                (let e : dst.bit_offset + lo ≡ lo = omega (arith, off) in e);
      },
    )
