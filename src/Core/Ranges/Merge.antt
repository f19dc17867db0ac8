-- ===== src/Core/Ranges/Merge.antt =====
-- The ranges that `merge_ranges` returns.
use stkoe_data.Base.{
  ℕ, ◌<◌, ◌≤◌, ◌≡◌, refl, ap, ◌∙◌, Bool, true, false, ◌||◌, All, arith, Bool-cases, inl, inr,
}
use stkoe_data.Base.{List, [], ◌∷◌, leb}
use stkoe_data.Core.Ranges.{
  RowRange, end, contains, extend, merge_loop, merge_sorted, merge_ranges, sort_by_key,
}
use stkoe_data.Core.Ranges.Order.{
  Fits, covers, IsSorted, covers-sort_by_key, sort_by_key-IsSorted, All-sort_by_key,
}

module _ (last r : RowRange) (fits : Fits last) (fits' : Fits r)
    (after : last.offset ≤ r.offset) where
  extend-Fits : Fits (extend last r)
  unfolding extend end
  extend-Fits = ground arith

  contains-extend :
      (row : ℕ)
      → r.offset ≤ end last
      → contains (extend last r) row ≡ (contains last row || contains r row)
  unfolding extend contains end
  contains-extend row touches = ground arith

or_assoc_lem : (a b c : Bool) → ((a || b) || c) ≡ (a || (b || c))
or_assoc_lem true b c = refl
or_assoc_lem false b c = refl

covers-merge_loop :
    (last : RowRange) (ranges : List RowRange) (row : ℕ)
    → Fits last
    → All Fits ranges
    → IsSorted (last ∷ ranges)
    → covers (merge_loop last ranges) row ≡ (contains last row || covers ranges row)
unfolding covers merge_loop IsSorted
covers-merge_loop last [] row fits all sorted = refl
covers-merge_loop last (r ∷ ranges) row fits all sorted =
    elim (Bool-cases (leb r.offset (end last))) [
      | inl q ↦ rw q (
          covers-merge_loop (extend last r) ranges row (extend-Fits last r fits all.0 sorted.0.0)
            all.1 (sorted.0.1, sorted.1.1)
          ∙ (ap (λ b. b || covers ranges row)
                (contains-extend last r fits all.0 sorted.0.0 row (ground arith))
              ∙ or_assoc_lem (contains last row) (contains r row) (covers ranges row)))
      | inr q ↦
          rw q
            (ap (λ b. contains last row || b) (covers-merge_loop r ranges row all.0 all.1 sorted.1))
    ]

covers-merge_sorted :
    (ranges : List RowRange) (row : ℕ)
    → All Fits ranges
    → IsSorted ranges
    → covers (merge_sorted ranges) row ≡ covers ranges row
unfolding covers merge_sorted
covers-merge_sorted [] row all sorted = refl
covers-merge_sorted (r ∷ ranges) row all sorted = covers-merge_loop r ranges row all.0 all.1 sorted

-- Merging changes no row: a row is in the merged ranges when it is in the given ones.
-- The condition: no range wraps around at 2^64.
pub covers-merge_ranges :
    (ranges : List RowRange) (row : ℕ)
    → All Fits ranges
    → covers (merge_ranges ranges) row ≡ covers ranges row
unfolding merge_ranges
covers-merge_ranges [] row all = refl
covers-merge_ranges (r ∷ []) row all = refl
covers-merge_ranges (r ∷ (s ∷ ranges)) row all =
    let given : List RowRange = r ∷ (s ∷ ranges) in
    covers-merge_sorted (sort_by_key given) row (All-sort_by_key Fits given all)
      (sort_by_key-IsSorted given)
    ∙ covers-sort_by_key given row

All-merge_loop :
    (P : ℕ → Type 0) (last : RowRange) (ranges : List RowRange)
    → P last.offset
    → All (λ (s : RowRange). P s.offset) ranges
    → All (λ (s : RowRange). P s.offset) (merge_loop last ranges)
unfolding merge_loop extend
All-merge_loop P last [] p all = (p, tt)
All-merge_loop P last (r ∷ ranges) p all = elim (Bool-cases (leb r.offset (end last))) [
  | inl q ↦ rw q (All-merge_loop P (extend last r) ranges p all.1)
  | inr q ↦ rw q (p, All-merge_loop P r ranges all.0 all.1)
]

-- Each range ends before every later one starts, with a row at least between them.
unfoldable pub IsSeparated : List RowRange → Type 0
IsSeparated [] = Unit {0}
IsSeparated (r ∷ ranges) = All (λ s. end r < s.offset) ranges × IsSeparated ranges

All-after :
    (a b : ℕ) (ranges : List RowRange)
    → a < b
    → All (λ (s : RowRange). b ≤ s.offset) ranges
    → All (λ (s : RowRange). a < s.offset) ranges
All-after a b [] h all = tt
All-after a b (s ∷ ranges) h all = (omega (arith, all.0), All-after a b ranges h all.1)

merge_loop-IsSeparated :
    (last : RowRange) (ranges : List RowRange)
    → IsSorted (last ∷ ranges)
    → IsSeparated (merge_loop last ranges)
unfolding merge_loop extend IsSorted IsSeparated
merge_loop-IsSeparated last [] sorted = (tt, tt)
merge_loop-IsSeparated last (r ∷ ranges) sorted = elim (Bool-cases (leb r.offset (end last))) [
  | inl q ↦ rw q (merge_loop-IsSeparated (extend last r) ranges (sorted.0.1, sorted.1.1))
  | inr q ↦
      let gap : end last < r.offset = ground arith in
      rw q (
        All-merge_loop (λ n. end last < n) r ranges gap
            (All-after (end last) r.offset ranges gap sorted.1.0),
        merge_loop-IsSeparated r ranges sorted.1,
      )
]

-- The merged ranges are in order, neither overlap nor touch.
pub merge_ranges-IsSeparated : (ranges : List RowRange) → IsSeparated (merge_ranges ranges)
unfolding merge_ranges merge_sorted IsSeparated
merge_ranges-IsSeparated [] = tt
merge_ranges-IsSeparated (r ∷ []) = (tt, tt)
merge_ranges-IsSeparated (r ∷ (s ∷ ranges)) =
    sorted (sort_by_key (r ∷ (s ∷ ranges))) (sort_by_key-IsSorted (r ∷ (s ∷ ranges)))
  where
    sorted : (all : List RowRange) → IsSorted all → IsSeparated (merge_sorted all)
    sorted [] h = tt
    sorted (t ∷ rest) h = merge_loop-IsSeparated t rest h
