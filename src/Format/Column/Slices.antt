-- ===== src/Format/Column/Slices.antt =====
-- The strings of a slice of a column.
use stkoe_data.Base.{
  ℕ, ◌+◌, ◌-◌, ◌≤◌, ◌<◌, ◌≡◌, refl, sym, ap, ◌∙◌, min, max, Bool, List, [], ◌∷◌, true, false, ◌==◌,
  ok, >>=-eq-ok, ok-injective, leb, ltb, arith, Bool-cases, inl, inr, guard,
}
use stkoe_data.Format.Errors.{invalid_layout}
use stkoe_data.Format.DataType.{DataType}
use stkoe_data.Format.Bitmap.{Checked}
use stkoe_data.Format.Column.Cuts.{ltb-le_false, slice_segment-string}
use stkoe_data.Format.Column.Views.{
  ColumnSegment, ColumnView, slice_segment, slice_loop, slice_rows, view_of_segments, sum_rows,
  empty, segment_string, string_in, string_at,
}

view_of_segments-segments :
    (data_type : DataType) (segments : List ColumnSegment) (c : ColumnView)
    → view_of_segments data_type segments ≡ ok c
    → c.segments ≡ segments
unfolding view_of_segments
view_of_segments-segments data_type [] c e = cc
view_of_segments-segments data_type (s ∷ segments) c e =
    ap (λ (v : ColumnView). v.segments) (sym (ok-injective e))

view_of_segments-length :
    (data_type : DataType) (segments : List ColumnSegment) (c : ColumnView)
    → view_of_segments data_type segments ≡ ok c
    → c.length' ≡ sum_rows segments
unfolding view_of_segments
view_of_segments-length data_type [] c e = cc
view_of_segments-length data_type (s ∷ segments) c e =
    ap (λ (v : ColumnView). v.length') (sym (ok-injective e))

module _ (is_utf8 : List ℕ → Bool) where
  -- The rounds of the loop behind a slice that was made.
  module _ (data_type : DataType) (s : ColumnSegment) (segments : List ColumnSegment)
      (seg_start pos end : ℕ) (out : List ColumnSegment) (h : seg_start ≤ pos) (k : pos < end)
      (e : slice_loop data_type (s ∷ segments) seg_start pos end ≡ ok out) where
    abbrev hi : ℕ
    hi = min end (seg_start + s.rows)

    -- A round that takes rows from a segment.
    record Taken : Type 0 where
      first : ColumnSegment
      rest : List ColumnSegment
      laid_out : out ≡ first ∷ rest
      rows : first.rows ≡ hi - pos
      strings :
          (i : ℕ)
          → i < hi - pos
          → segment_string is_utf8 first.values i
            ≡ segment_string is_utf8 s.values (pos - seg_start + i)
      others : slice_loop data_type segments (seg_start + s.rows) hi end ≡ ok rest

    slice_loop-Taken : pos < hi → Taken
    unfolding slice_loop
    slice_loop-Taken inside =
        let lo_is : max pos seg_start ≡ pos = omega arith in
        let q : ltb (max pos seg_start) hi ≡ true = ground arith in
        let more : leb end pos ≡ false = ground arith in
        let cut =
          slice_segment data_type s (max pos seg_start - seg_start) (hi - max pos seg_start) in
        let (first, e1, e2) = >>=-eq-ok cut _ (rw (more, q) at e) in
        let (rest, e3, e4) =
          >>=-eq-ok (slice_loop data_type segments (seg_start + s.rows) hi end) _ e2 in
        let (rows, strings) =
          slice_segment-string is_utf8 data_type s first (pos - seg_start) (hi - pos)
            (rw lo_is at e1) in
        record {
          first = first;
          rest = rest;
          laid_out = sym (ok-injective {a = first ∷ rest} e4);
          rows = rows;
          strings = strings;
          others = e3;
        }

    -- A round that passes a segment.
    slice_loop-passed :
        hi ≤ pos → slice_loop data_type segments (seg_start + s.rows) pos end ≡ ok out
    unfolding slice_loop
    slice_loop-passed outside =
        let q : ltb (max pos seg_start) hi ≡ false = ground arith in
        let more : leb end pos ≡ false = ground arith in rw (more, q) at e

  slice_loop-string :
      (data_type : DataType) (segments : List ColumnSegment) (seg_start pos end : ℕ)
      (out : List ColumnSegment) (i : ℕ)
      → seg_start ≤ pos
      → pos + i < end
      → slice_loop data_type segments seg_start pos end ≡ ok out
      → string_in is_utf8 out i ≡ string_in is_utf8 segments (pos - seg_start + i)
  unfolding string_in
  slice_loop-string data_type [] seg_start pos end out i h k e =
      unfold slice_loop in rw (sym (ok-injective e)) refl
  slice_loop-string data_type (s ∷ segments) seg_start pos end out i h k e =
      let stop : ℕ = min end (seg_start + s.rows) in
      elim (Bool-cases (ltb pos stop)) [
        | inl q ↦
            let t =
              slice_loop-Taken data_type s segments seg_start pos end out h (omega arith) e
                (ground arith) in
            let count = t.rows in
            rw (t.laid_out, count)
              (elim (Bool-cases (ltb i (stop - pos))) [
                | inl r ↦
                    let near : ltb (pos - seg_start + i) s.rows ≡ true = ground arith in
                    rw (r, near) (t.strings i (ground arith))
                | inr r ↦
                    let far : stop - pos ≤ i = ground arith in
                    rw (r, ltb-le_false (pos - seg_start + i) s.rows (ground arith))
                      (slice_loop-string data_type segments (seg_start + s.rows) stop end t.rest
                          (i - (stop - pos)) (ground arith) (ground arith) t.others
                        ∙ ap (string_in is_utf8 segments) (ground arith))
              ])
        | inr q ↦
            let passed =
              slice_loop-passed data_type s segments seg_start pos end out h (omega arith) e
                (ground arith) in
            rw (ltb-le_false (pos - seg_start + i) s.rows (ground arith)) (
              slice_loop-string data_type segments (seg_start + s.rows) pos end out i (ground arith)
                k passed
              ∙ ap (string_in is_utf8 segments) (ground arith))
      ]

  slice_loop-rows :
      (data_type : DataType) (segments : List ColumnSegment) (seg_start pos end : ℕ)
      (out : List ColumnSegment)
      → (pos < end → seg_start ≤ pos)
      → end ≤ seg_start + sum_rows segments
      → slice_loop data_type segments seg_start pos end ≡ ok out
      → sum_rows out ≡ end - pos
  unfolding sum_rows
  slice_loop-rows data_type [] seg_start pos end out h full e =
      let none_left : end ≤ pos = elim (Bool-cases (leb end pos)) [
        | inl q ↦ ground arith
        | inr q ↦ (let low = h (ground arith) in omega arith)
      ] in
      unfold slice_loop in rw (sym (ok-injective e)) (omega arith)
  slice_loop-rows data_type (s ∷ segments) seg_start pos end out h full e =
      elim (Bool-cases (leb end pos)) [
        | inl done ↦
            let stopped : ◌≡◌ {A = Checked (List ColumnSegment)} (ok []) (ok out) =
              unfold slice_loop in rw done at e in
            rw (sym (ok-injective stopped)) (ground arith)
        | inr more ↦
            let k : pos < end = ground arith in
            let low : seg_start ≤ pos = h k in
            let stop : ℕ = min end (seg_start + s.rows) in
            elim (Bool-cases (ltb pos stop)) [
              | inl q ↦
                  let t =
                    slice_loop-Taken data_type s segments seg_start pos end out low k e
                      (ground arith) in
                  let count = t.rows in
                  let rest : sum_rows t.rest ≡ end - stop =
                    slice_loop-rows data_type segments (seg_start + s.rows) stop end t.rest
                      (λ m. omega arith) (omega arith) t.others in
                  rw t.laid_out (ground (arith, count, rest))
              | inr q ↦
                  slice_loop-rows data_type segments (seg_start + s.rows) pos end out
                    (λ m. ground arith) (omega arith)
                    (slice_loop-passed data_type s segments seg_start pos end out low k e
                      (ground arith))
            ]
      ]

  -- A slice has as many rows as were asked for, and the string of each of its rows is the string of
  -- that row of the column, whatever segments the slice crosses and whichever dictionary each of
  -- them has.
  -- The conditions: the column has the rows of its segments, and the slice is made.
  pub string_at-slice_rows :
      (c sliced : ColumnView) (offset len : ℕ)
      → c.length' ≡ sum_rows c.segments
      → slice_rows c offset len ≡ ok sliced
      → (sliced.length' ≡ len)
        × ((i : ℕ) → i < len → string_at is_utf8 sliced i ≡ string_at is_utf8 c (offset + i))
  unfolding slice_rows string_at
  string_at-slice_rows c sliced offset len measured e =
      let (u, inside, e1) = >>=-eq-ok (guard (leb (offset + len) c.length') invalid_layout) _ e in
      elim (Bool-cases (len == 0)) [
        | inl q ↦
            let made = ok-injective {a = empty c.data_type} (rw q at e1) in
            (
              sym (ap (λ (v : ColumnView). v.length') made) ∙ ground arith,
              λ i h. absurd (ground arith),
            )
        | inr q ↦
            let (out, cut, e2) =
              >>=-eq-ok (slice_loop c.data_type c.segments 0 offset (offset + len)) _
                (rw q at e1) in
            let made = view_of_segments-segments c.data_type out sliced e2 in
            (
              view_of_segments-length c.data_type out sliced e2
                  ∙ (slice_loop-rows c.data_type c.segments 0 offset (offset + len) out
                        (omega arith) (ground arith) cut
                      ∙ omega arith),
              λ i h.
                  ap (λ s. string_in is_utf8 s i) made
                  ∙ (slice_loop-string c.data_type c.segments 0 offset (offset + len) out i
                        (omega arith) (omega arith) cut
                      ∙ ap (string_in is_utf8 c.segments)
                          (let e : offset - 0 + i ≡ offset + i = omega arith in e)),
            )
      ]
