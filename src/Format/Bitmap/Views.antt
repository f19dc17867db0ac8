-- ===== src/Format/Bitmap/Views.antt =====
-- Bits of views and of bitmaps.
use stkoe_data.Base.{ℕ, ◌+◌, ◌/◌, ◌%◌, ◌^◌, ◌≤◌, ◌<◌, ◌≡◌, ap, List, length, get_or, Bool}
use stkoe_data.Base.{ok, assert, ◌>>=◌, ◌>>◌, ◌==◌, ltb, arith, le→leb, lt→ltb}
use stkoe_data.Base.{bit_and}
use stkoe_data.Format.Bitmap.{BitmapView, Checked, view, view_is_valid, slice}

-- The data covers the bits of the view, as `view` checks.
abbrev pub Covers : BitmapView → Type 0
Covers v = (v.bit_offset + v.len + 7) / 8 ≤ length v.data'

abbrev bit_is_set : List ℕ → ℕ → Checked Bool
bit_is_set bytes n = do
  assert (ltb (n / 8) (length bytes))
  ok (bit_and (get_or bytes (n / 8) 0 / 2 ^ (n % 8)) 1 == 1)

-- Row `i` of a slice is row `offset + i` of the view.
-- The conditions: the slice lies in the view and has the row, and the data covers the view.
pub view_is_valid-slice :
    (v : BitmapView) (offset len i : ℕ)
    → Covers v
    → offset + len ≤ v.len
    → i < len
    → (slice v offset len >>= λ w. view_is_valid w i) ≡ view_is_valid v (offset + i)
unfolding slice view view_is_valid
view_is_valid-slice v offset len i covers inside h =
    rw
      (
        le→leb (offset + len) v.len inside,
        le→leb ((v.bit_offset + offset + len + 7) / 8) (length v.data') (omega arith),
        lt→ltb i len h,
        lt→ltb (offset + i) v.len (omega arith),
      )
      (ap (bit_is_set v.data')
        (let e : v.bit_offset + offset + i ≡ v.bit_offset + (offset + i) = omega arith in e))
