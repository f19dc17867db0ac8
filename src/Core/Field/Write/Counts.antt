-- ===== src/Core/Field/Write/Counts.antt =====
-- The null count of a field that is written.
use mathlib.Core.Path.{subst}
use stkoe_data.Base.{
  ℕ, zero, suc, ◌+◌, ◌-◌, ◌*◌, ◌≤◌, ◌<◌, ◌≡◌, refl, sym, ap, ◌∙◌, List, length, true, false, ok,
  panic, leb→le, ◌==◌, leb, if◌then◌else◌, arith, Bool-cases, inl, inr, IsBytes, bit_at,
  ok-injective, sum, sum-split, sum_ext,
}
use stkoe_data.Format.Bitmap.{bitmap_copy_bits, bitmap_fill_bits}
use stkoe_data.Format.Bitmap.Bytes.{copy_bits, fill_bits}
use stkoe_data.Format.Bitmap.Fill.{within, fill_bits-bits}
use stkoe_data.Format.Bitmap.Copy.{copy_bits-bits}
use stkoe_data.Format.Bitmap.Count.{ones_in, count_bits-ones_in}
use stkoe_data.Format.Bitmap.Shape.{
  length-copy_bits, length-fill_bits, copy_bits-IsBytes, fill_bits-IsBytes, bitmap_copy_bits-ok,
  bitmap_fill_bits-ok,
}

-- A window of a buffer was changed, which had `old` ones and now has `new'`.
pub record Changed (dst dst' : List ℕ) (off len old new' : ℕ) : Type 0 where
  pub same_length : length dst' ≡ length dst
  pub is_bytes : IsBytes dst'
  pub old_ones : old ≡ ones_in dst off len
  pub new_ones : new' ≡ ones_in dst' off len
  pub outside : (n : ℕ) → within off len n ≡ false → bit_at dst' n ≡ bit_at dst n

unchanged : (dst : List ℕ) (off len : ℕ) → IsBytes dst → len ≡ 0 → Changed dst dst off len 0 0
unfolding sum
unchanged dst off len h e = record {
  same_length = refl;
  is_bytes = h;
  old_ones = ap (ones_in dst off) (sym e);
  new_ones = ap (ones_in dst off) (sym e);
  outside = λ n q. refl;
}

copied-inside :
    (dst : List ℕ) (off : ℕ) (src : List ℕ) (src_off len : ℕ) (dst' : List ℕ) (old new' : ℕ)
    → (len == 0) ≡ false
    → bitmap_copy_bits dst off src src_off len ≡ ok (dst', old, new')
    → (off + len ≤ length dst * 8) × (src_off + len ≤ length src * 8)
unfolding bitmap_copy_bits
copied-inside dst off src src_off len dst' old new' q e =
    elim (Bool-cases (leb (off + len) (length dst * 8))) [
      | inr r ↦
          let f : bitmap_copy_bits dst off src src_off len ≡ panic = rw (q, r) refl in absurd cc
      | inl r ↦ elim (Bool-cases (leb (src_off + len) (length src * 8))) [
        | inr t ↦
            let f : bitmap_copy_bits dst off src src_off len ≡ panic = rw (q, r, t) refl in
            absurd cc
        | inl t ↦ (leb→le (off + len) (length dst * 8) r, leb→le (src_off + len) (length src * 8) t)
      ]
    ]

copy_nothing :
    (dst : List ℕ) (off : ℕ) (src : List ℕ) (src_off len : ℕ)
    → (len == 0) ≡ true
    → bitmap_copy_bits dst off src src_off len ≡ ok (dst, 0, 0)
unfolding bitmap_copy_bits
copy_nothing dst off src src_off len q = rw q refl

pub sum_one : (f : ℕ → ℕ) (a n : ℕ) → ((k : ℕ) → k < n → f (a + k) ≡ 1) → sum f a n ≡ n
unfolding sum
sum_one f a zero h = refl
sum_one f a (suc n) h = omega (
  arith,
  ap f (let e : a ≡ a + 0 = omega arith in e),
  h 0 (omega arith),
  sum_one f (a + 1) n
      (λ k r. ap f (let e : a + 1 + k ≡ a + suc k = omega arith in e) ∙ h (suc k) (omega arith)),
)

within_window :
    (off len k : ℕ) → k < len → (x : ℕ) → (if within off len (off + k) then 1 else x) ≡ 1
within_window off len k h x = ground arith

-- A copy of bits counts the ones of the window before and after.
pub bitmap_copy_bits-Changed :
    (dst : List ℕ) (off : ℕ) (src : List ℕ) (src_off len : ℕ) (dst' : List ℕ) (old new' : ℕ)
    → IsBytes src
    → IsBytes dst
    → bitmap_copy_bits dst off src src_off len ≡ ok (dst', old, new')
    → Changed dst dst' off len old new'
bitmap_copy_bits-Changed dst off src src_off len dst' old new' hs hd e =
    elim (Bool-cases (len == 0)) [
      | inl q ↦
          let p = ok-injective (sym (copy_nothing dst off src src_off len q) ∙ e) in
          subst (λ (t : List ℕ × ℕ × ℕ). Changed dst t.0 off len t.1 t.2) p
            (unchanged dst off len hd (ground arith))
      | inr q ↦
          let (inside, covered) = copied-inside dst off src src_off len dst' old new' q e in
          let p = ok-injective (
            sym (bitmap_copy_bits-ok dst off src src_off len hs (ground arith) inside covered)
            ∙ e) in
          let long = length-copy_bits dst off src src_off len hs in
          subst (λ (t : List ℕ × ℕ × ℕ). Changed dst t.0 off len t.1 t.2) p
            (record {
              same_length = long;
              is_bytes = copy_bits-IsBytes src hs dst off src_off len hd;
              old_ones = count_bits-ones_in dst off len hd inside;
              new_ones =
                  count_bits-ones_in (copy_bits dst off src src_off len) off len
                    (copy_bits-IsBytes src hs dst off src_off len hd) (omega (arith, inside, long));
              outside = λ n r. copy_bits-bits src hs dst off src_off len n inside ∙ rw r refl;
            })
    ]

filled-inside :
    (dst : List ℕ) (off len : ℕ) (dst' : List ℕ) (old : ℕ)
    → (len == 0) ≡ false
    → bitmap_fill_bits dst off len true ≡ ok (dst', old)
    → off + len ≤ length dst * 8
unfolding bitmap_fill_bits
filled-inside dst off len dst' old q e = elim (Bool-cases (leb (off + len) (length dst * 8))) [
  | inl r ↦ ground arith
  | inr r ↦ let f : bitmap_fill_bits dst off len true ≡ panic = rw (q, r) refl in absurd cc
]

fill_nothing :
    (dst : List ℕ) (off len : ℕ)
    → (len == 0) ≡ true
    → bitmap_fill_bits dst off len true ≡ ok (dst, 0)
unfolding bitmap_fill_bits
fill_nothing dst off len q = rw q refl

-- Where rows are filled as valid, each of them is a one behind the write.
pub bitmap_fill_bits-Changed :
    (dst : List ℕ) (off len : ℕ) (dst' : List ℕ) (old : ℕ)
    → IsBytes dst
    → bitmap_fill_bits dst off len true ≡ ok (dst', old)
    → Changed dst dst' off len old len
bitmap_fill_bits-Changed dst off len dst' old hd e = elim (Bool-cases (len == 0)) [
  | inl q ↦
      let p = ok-injective (sym (fill_nothing dst off len q) ∙ e) in
      let z : 0 ≡ len = ground arith in
      subst (λ (t : List ℕ × ℕ). Changed dst t.0 off len t.1 len) p
        (subst (λ n. Changed dst dst off len 0 n) z (unchanged dst off len hd (sym z)))
  | inr q ↦
      let inside = filled-inside dst off len dst' old q e in
      let p = ok-injective (sym (bitmap_fill_bits-ok dst off len true (ground arith) inside) ∙ e) in
      subst (λ (t : List ℕ × ℕ). Changed dst t.0 off len t.1 len) p
        (record {
          same_length = length-fill_bits dst off len true;
          is_bytes = fill_bits-IsBytes dst off len true hd;
          old_ones = count_bits-ones_in dst off len hd inside;
          new_ones = sym (
              sum_one (bit_at (fill_bits dst off len true)) off len (λ k r.
                fill_bits-bits dst off len true (off + k) inside ∙ within_window off len k r _));
          outside = λ n r. fill_bits-bits dst off len true n inside ∙ rw r refl;
        })
]

-- The ones of the whole and of the window, before and after.
pub ones_in-Changed :
    (dst dst' : List ℕ) (off rows row len old new' : ℕ)
    → Changed dst dst' (off + row) len old new'
    → row + len ≤ rows
    → ones_in dst' off rows + old ≡ ones_in dst off rows + new'
ones_in-Changed dst dst' off rows row len old new' c h =
    let rest : ℕ = rows - row - len in
    let whole : rows ≡ row + (len + rest) = omega arith in
    omega (
      arith,
      c.old_ones,
      c.new_ones,
      ap (ones_in dst off) whole,
      ap (ones_in dst' off) whole,
      sum-split (bit_at dst) off row (len + rest),
      sum-split (bit_at dst') off row (len + rest),
      sum-split (bit_at dst) (off + row) len rest,
      sum-split (bit_at dst') (off + row) len rest,
      sum_ext (bit_at dst') (bit_at dst) off off row (λ k r. c.outside (off + k) (ground arith)),
      sum_ext (bit_at dst') (bit_at dst) (off + row + len) (off + row + len) rest
          (λ k r. c.outside (off + row + len + k) (ground arith)),
    )
