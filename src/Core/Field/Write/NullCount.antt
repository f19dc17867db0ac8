-- ===== src/Core/Field/Write/NullCount.antt =====
-- The null count is the number of rows that are not valid.
use mathlib.Core.Path.{subst}
use stkoe_data.Base.{
  ℕ, ◌+◌, ◌*◌, ◌/◌, ◌%◌, ◌^◌, ◌≤◌, ◌<◌, ◌≡◌, refl, ap, ◌∙◌, List, [], ◌∷◌, length, Bool, true,
  false, Option, none, some, ok, assert, leb, leb→le, if◌then◌else◌, arith, IsBytes, All, bit_at,
  bit-le, >>=-eq-ok, ok-injective, sum-le, get_or,
}
use stkoe_data.Format.DataType.{DataType}
use stkoe_data.Format.FieldHeader.{FieldHeader}
use stkoe_data.Format.Bitmap.{
  Bitmap, BitmapView, Checked, ones, bitmap_copy_bits, bitmap_fill_bits, copy_bits_from, set_range,
}
use stkoe_data.Format.Bitmap.Count.{ones_in}
use stkoe_data.Format.Bitmap.Ones.{bit_at-ones, length-ones, ones-IsBytes}
use stkoe_data.Format.Column.Views.{ColumnSegment}
use stkoe_data.Core.Lookup.{map_err, map_err-eq-ok}
use stkoe_data.Core.Field.Open.{Working, copy_from_slice}
use stkoe_data.Core.Field.Write.{
  Delta, add_delta, apply_delta, any_nulls, expect_raw, write_validity, write_segments, with_bits,
  width_of, write_into_working,
}
use stkoe_data.Core.Field.Write.Counts.{
  Changed, bitmap_copy_bits-Changed, bitmap_fill_bits-Changed, ones_in-Changed, sum_one,
}

-- The bitmap covers the rows.
abbrev pub IsBits : ℕ → Bitmap → Type 0
IsBits rows b = (b.len ≡ rows) × (b.bit_offset + rows ≤ length b.data' * 8) × IsBytes b.data'

-- With the rows that are valid, the nulls make up all rows; without a bitmap there are none.
unfoldable pub IsCounted : ℕ → Option Bitmap → ℕ → Type 0
IsCounted rows none nulls = nulls ≡ 0
IsCounted rows (some b) nulls = IsBits rows b × (nulls + ones_in b.data' b.bit_offset rows ≡ rows)

-- The same while segments are written, with the delta so far.
unfoldable pub Tracks : ℕ → Option Bitmap → ℕ → Delta → Type 0
Tracks rows none nulls d = (nulls ≡ 0) × (d.olds ≡ 0) × (d.news ≡ 0)
Tracks rows (some b) nulls d =
    IsBits rows b × (nulls + d.olds + ones_in b.data' b.bit_offset rows ≡ rows + d.news)

-- The validity of a segment is made of bytes.
unfoldable pub HasBytes : Option BitmapView → Type 0
HasBytes none = Unit {0}
HasBytes (some v) = IsBytes v.data'

ones-IsBits : (rows : ℕ) → IsBits rows (ones rows)
unfolding ones
ones-IsBits rows = (refl, omega (arith, length-ones rows), ones-IsBytes rows)

tracked-copy :
    (rows nulls row k : ℕ) (b : Bitmap) (d : Delta) (data' : List ℕ) (old new' : ℕ)
    → Tracks rows (some b) nulls d
    → row + k ≤ b.len
    → Changed b.data' data' (b.bit_offset + row) k old new'
    → Tracks rows
        (some (record { data' = data'; bit_offset = b.bit_offset; len = b.len }))
        nulls
        (add_delta d old new')
unfolding Tracks
tracked-copy rows nulls row k b d data' old new' ((len, covered, bytes), e) inside c =
    let changed =
      ones_in-Changed b.data' data' b.bit_offset rows row k old new' c (omega (arith, len)) in
    ((len, omega (arith, covered, c.same_length), c.is_bytes), omega (arith, e, changed))

assert-eq-ok : (t : Bool) (u : Unit {0}) → ◌≡◌ {A = Checked (Unit {0})} (assert t) (ok u) → t ≡ true
assert-eq-ok true u e = refl
assert-eq-ok false u e = cc

write_validity-Tracks :
    (rows nulls row k : ℕ) (validity : Option Bitmap) (src : Option BitmapView) (d : Delta)
    (validity' : Option Bitmap) (d' : Delta)
    → HasBytes src
    → Tracks rows validity nulls d
    → write_validity validity src row k d ≡ ok (validity', d')
    → Tracks rows validity' nulls d'
unfolding write_validity copy_bits_from set_range HasBytes Tracks
write_validity-Tracks rows nulls row k none src d validity' d' hs t e =
    let p = ok-injective e in subst (λ (r : Option Bitmap × Delta). Tracks rows r.0 nulls r.1) p t
write_validity-Tracks rows nulls row k (some b) (some v) d validity' d' hs t e =
    let ((full, old, new'), copied, e1) = >>=-eq-ok (map_err (copy_bits_from b row v k)) _ e in
    let (u, inside, e2) =
      >>=-eq-ok (assert (leb (row + k) b.len)) _
        (map_err-eq-ok (copy_bits_from b row v k) _ copied) in
    let ((data', old', new''), changed, e3) =
      >>=-eq-ok (bitmap_copy_bits b.data' (b.bit_offset + row) v.data' v.bit_offset k) _ e2 in
    let c =
      bitmap_copy_bits-Changed b.data' (b.bit_offset + row) v.data' v.bit_offset k data' old' new''
        hs t.0.2 changed in
    let tracked =
      tracked-copy rows nulls row k b d data' old' new'' t
        (leb→le (row + k) b.len (assert-eq-ok _ u inside)) c in
    subst (λ (r : Option Bitmap × Delta). Tracks rows r.0 nulls r.1) (ok-injective e1)
      (subst (λ (r : Bitmap × ℕ × ℕ). Tracks rows (some r.0) nulls (add_delta d r.1 r.2))
        (ok-injective e3) tracked)
write_validity-Tracks rows nulls row k (some b) none d validity' d' hs t e =
    let ((full, old), filled, e1) = >>=-eq-ok (map_err (set_range b row k true)) _ e in
    let (u, inside, e2) =
      >>=-eq-ok (assert (leb (row + k) b.len)) _
        (map_err-eq-ok (set_range b row k true) _ filled) in
    let ((data', old'), changed, e3) =
      >>=-eq-ok (bitmap_fill_bits b.data' (b.bit_offset + row) k true) _ e2 in
    let c = bitmap_fill_bits-Changed b.data' (b.bit_offset + row) k data' old' t.0.2 changed in
    let tracked =
      tracked-copy rows nulls row k b d data' old' k t
        (leb→le (row + k) b.len (assert-eq-ok _ u inside)) c in
    subst (λ (r : Option Bitmap × Delta). Tracks rows r.0 nulls r.1) (ok-injective e1)
      (subst (λ (r : Bitmap × ℕ). Tracks rows (some r.0) nulls (add_delta d r.1 k))
        (ok-injective e3) tracked)

write_segments-Tracks :
    (width rows nulls : ℕ) (segments : List ColumnSegment) (row : ℕ) (work : Working) (d : Delta)
    (work' : Working) (d' : Delta)
    → All (λ (s : ColumnSegment). HasBytes s.validity) segments
    → Tracks rows work.validity nulls d
    → write_segments width segments row work d ≡ ok (work', d')
    → Tracks rows work'.validity nulls d'
unfolding write_segments
write_segments-Tracks width rows nulls [] row work d work' d' h t e =
    subst (λ (r : Working × Delta). Tracks rows r.0.validity nulls r.1) (ok-injective e) t
write_segments-Tracks width rows nulls (s ∷ segments) row work d work' d' h t e =
    let (raw, found, e1) = >>=-eq-ok (expect_raw s) _ e in
    let (values', copied, e2) =
      >>=-eq-ok (copy_from_slice work.values (row * width) ((row + s.rows) * width) raw) _ e1 in
    let ((validity', d1), written, e3) =
      >>=-eq-ok (write_validity work.validity s.validity row s.rows d) _ e2 in
    write_segments-Tracks width rows nulls segments (row + s.rows)
      (record { values = values'; validity = validity' }) d1 work' d' h.1
      (write_validity-Tracks rows nulls row s.rows work.validity s.validity d validity' d1 h.0 t
        written)
      e3

abbrev no_delta : Delta
no_delta = record { olds = 0; news = 0 }

with_bits-Tracks :
    (needs_bits : Bool) (work : Working) (rows nulls : ℕ)
    → IsCounted rows work.validity nulls
    → Tracks rows (with_bits needs_bits work rows).validity nulls no_delta
unfolding IsCounted Tracks with_bits
with_bits-Tracks needs_bits work rows nulls h = started needs_bits work.validity h
  where
    started :
        (needs_bits : Bool) (validity : Option Bitmap)
        → IsCounted rows validity nulls
        → Tracks rows
            (elim validity as (λ v. Option Bitmap) [
              | some b ↦ some b
              | none ↦ if needs_bits then some (ones rows) else none
            ])
            nulls
            no_delta
    started needs_bits (some b) (bits, e) = (bits, omega (arith, e))
    started false none e = (e, refl, refl)
    started true none e =
        let count = sum_one (bit_at (ones rows).data') 0 rows (λ k h.
          ap (bit_at (ones rows).data') (let z : 0 + k ≡ k = omega arith in z)
          ∙ bit_at-ones rows k h) in
        (ones-IsBits rows, omega (arith, e, count))

Tracks-IsCounted :
    (rows nulls : ℕ) (validity : Option Bitmap) (d : Delta)
    → rows < 2 ^ 32
    → Tracks rows validity nulls d
    → IsCounted rows validity (apply_delta nulls d)
unfolding Tracks IsCounted bit_at
Tracks-IsCounted rows nulls none d small (e, o, n) = omega (arith, e, o, n)
Tracks-IsCounted rows nulls (some b) d small (bits, e) =
    let few =
      sum-le (bit_at b.data') b.bit_offset rows (λ k. bit-le (k % 8) (get_or b.data' (k / 8) 0)) in
    (bits, omega (arith, e, few))

-- A write into the decoded values keeps the null count exact: with the rows that the bitmap marks
-- as valid it makes up all rows, and without a bitmap it is 0, also where the bitmap is made for
-- the first NULL, and although only the bits that are written over are counted.
-- The conditions: the row count is a `u32`, and the validity of each segment is made of bytes.
pub write_into_working-IsCounted :
    (header : FieldHeader) (data_type : DataType) (work : Working) (offset : ℕ)
    (segments : List ColumnSegment) (work' : Working) (nulls : ℕ)
    → header.row_count < 2 ^ 32
    → All (λ (s : ColumnSegment). HasBytes s.validity) segments
    → IsCounted header.row_count work.validity header.null_count
    → write_into_working header data_type work offset segments ≡ ok (work', nulls)
    → IsCounted header.row_count work'.validity nulls
unfolding write_into_working
write_into_working-IsCounted header data_type work offset segments work' nulls small h counted e =
    let (needs_bits, found, e1) = >>=-eq-ok (any_nulls segments) _ e in
    let start = with_bits needs_bits work header.row_count in
    let ((work1, d), written, e2) =
      >>=-eq-ok (write_segments (width_of data_type) segments offset start no_delta) _ e1 in
    let tracked =
      write_segments-Tracks (width_of data_type) header.row_count header.null_count segments offset
        start no_delta work1 d h
        (with_bits-Tracks needs_bits work header.row_count header.null_count counted) written in
    subst (λ (r : Working × ℕ). IsCounted header.row_count r.0.validity r.1) (ok-injective e2)
      (Tracks-IsCounted header.row_count header.null_count work1.validity d small tracked)
