-- ===== src/Format/Column/Cuts.antt =====
-- A segment of a column and what is cut out of it.
use stkoe_data.Base.{
  ℕ, zero, suc, ◌+◌, ◌-◌, ◌*◌, ◌≤◌, ◌<◌, ◌≡◌, refl, sym, ap, ◌∙◌, Bool, List, [], ◌∷◌, false, ◌==◌,
  ◌/◌, length, take, drop, Option, ok, >>=-eq-ok, ok-injective, ltb, arith, guard, drop-drop,
  length-take, length-drop, le→leb,
}
use stkoe_data.Format.DataType.{DataType, size_of}
use stkoe_data.Format.Bitmap.{BitmapView}
use stkoe_data.Format.Column.Views.{
  ColumnValues, fixed, dict, repeat_dict, ColumnSegment, part_of, is_offsets, fixed_segment,
  dict_segment, repeat_dict_segment, slice_validity, slice_values, slice_segment, segment_string,
}

take-take_le : (a k : ℕ) (xs : List ℕ) → a ≤ k → take a (take k xs) ≡ take a xs
take-take_le zero k xs h = refl
take-take_le (suc a) zero xs h = absurd (omega arith)
take-take_le (suc a) (suc k) [] h = refl
take-take_le (suc a) (suc k) (x ∷ xs) h = ap (λ t. x ∷ t) (take-take_le a k xs (omega arith))

take-drop-take :
    (a m k : ℕ) (xs : List ℕ) → m + a ≤ k → take a (drop m (take k xs)) ≡ take a (drop m xs)
take-drop-take a zero k xs h = take-take_le a k xs (omega arith)
take-drop-take a (suc m) zero xs h = absurd (omega arith)
take-drop-take a (suc m) (suc k) [] h = refl
take-drop-take a (suc m) (suc k) (x ∷ xs) h = take-drop-take a m k xs (omega arith)

part_of-eq-ok :
    (bytes part : List ℕ) (from to : ℕ)
    → part_of bytes from to ≡ ok part
    → (from ≤ to) × (to ≤ length bytes) × (part ≡ take (to - from) (drop from bytes))
part_of-eq-ok bytes part from to e = ground arith

part_of-ok :
    (bytes : List ℕ) (from to : ℕ)
    → from ≤ to
    → to ≤ length bytes
    → part_of bytes from to ≡ ok (take (to - from) (drop from bytes))
part_of-ok bytes from to h k = rw (le→leb from to h, le→leb to (length bytes) k) refl

-- A key in a part of the keys.
module _ (keys kb : List ℕ) (lo n i : ℕ) (h : i < n) (fits : (lo + n) * 4 ≤ length keys)
    (e : kb ≡ take ((lo + n) * 4 - lo * 4) (drop (lo * 4) keys)) where
  length-keys : length kb ≡ n * 4
  length-keys = omega (
    arith,
    ap length e,
    length-take ((lo + n) * 4 - lo * 4) (drop (lo * 4) keys),
    length-drop (lo * 4) keys,
  )

  key_at : part_of kb (i * 4) (i * 4 + 4) ≡ part_of keys ((lo + i) * 4) ((lo + i) * 4 + 4)
  key_at =
      part_of-ok kb (i * 4) (i * 4 + 4) (omega arith) (omega (arith, length-keys))
      ∙ ap ok (
          ap (λ n. take n (drop (i * 4) kb)) (let e : i * 4 + 4 - i * 4 ≡ 4 = omega arith in e)
          ∙ (ap (λ t. take 4 (drop (i * 4) t)) e
              ∙ (take-drop-take 4 (i * 4) ((lo + n) * 4 - lo * 4) (drop (lo * 4) keys) (omega arith)
                  ∙ (ap (take 4) (
                        drop-drop (i * 4) (lo * 4) keys
                        ∙ ap (λ k. drop k keys)
                            (let e : lo * 4 + i * 4 ≡ (lo + i) * 4 = omega arith in e))
                      ∙ ap (λ k. take k (drop ((lo + i) * 4) keys))
                          (let e : 4 ≡ (lo + i) * 4 + 4 - (lo + i) * 4 = omega arith in e)))))
      ∙ sym (part_of-ok keys ((lo + i) * 4) ((lo + i) * 4 + 4) (omega arith) (omega arith))

pub ltb-le_false : (a b : ℕ) → b ≤ a → ltb a b ≡ false
ltb-le_false a b h = ground arith

module _ (is_utf8 : List ℕ → Bool) where
  -- What was cut out of the values of a segment.
  slice_values-string :
      (data_type : DataType) (values : ColumnValues) (first : ColumnSegment) (lo n : ℕ)
      (v : Option BitmapView)
      → slice_values data_type values lo n v ≡ ok first
      → (first.rows ≡ n)
        × ((i : ℕ)
            → i < n
            → segment_string is_utf8 first.values i ≡ segment_string is_utf8 values (lo + i))
  unfolding slice_values fixed_segment dict_segment repeat_dict_segment segment_string
  slice_values-string data_type (fixed w) first lo n v e =
      let (bytes, e1, e2) =
        >>=-eq-ok (part_of w (lo * size_of data_type) ((lo + n) * size_of data_type)) _ e in
      let (u, sized, e3) = >>=-eq-ok (guard (length bytes == n * size_of data_type) _) _ e2 in
      let made = ok-injective e3 in rw (sym made) (refl, λ i h. refl)
  slice_values-string data_type (dict keys offsets strings) first lo n v e =
      let (kb, e1, e2) = >>=-eq-ok (part_of keys (lo * 4) ((lo + n) * 4)) _ e in
      let (from, fits, same) = part_of-eq-ok keys kb (lo * 4) ((lo + n) * 4) e1 in
      let (u, sized, e3) = >>=-eq-ok (guard (length kb == n * 4) _) _ e2 in
      let (w, regular, e4) = >>=-eq-ok (guard (is_offsets offsets) _) _ e3 in
      let made = ok-injective e4 in
      rw (sym made) (
        refl,
        λ i h.
            rw
              (
                ltb-le_false (length kb) (i * 4 + 4)
                    (omega (arith, length-keys keys kb lo n i h fits same)),
                ltb-le_false (length keys) ((lo + i) * 4 + 4) (omega arith),
                key_at keys kb lo n i h fits same,
              )
              refl,
      )
  slice_values-string data_type (repeat_dict offsets strings index) first lo n v e =
      let (u, regular, e1) = >>=-eq-ok (guard (is_offsets offsets) _) _ e in
      let (w, below, e2) = >>=-eq-ok (guard (ltb index (length offsets / 8 - 1)) _) _ e1 in
      let made = ok-injective e2 in rw (sym made) (refl, λ i h. refl)

  pub slice_segment-string :
      (data_type : DataType) (s first : ColumnSegment) (lo n : ℕ)
      → slice_segment data_type s lo n ≡ ok first
      → (first.rows ≡ n)
        × ((i : ℕ)
            → i < n
            → segment_string is_utf8 first.values i ≡ segment_string is_utf8 s.values (lo + i))
  unfolding slice_segment
  slice_segment-string data_type s first lo n e =
      let (v, e1, e2) = >>=-eq-ok (slice_validity s.validity lo n) _ e in
      slice_values-string data_type s.values first lo n v e2
