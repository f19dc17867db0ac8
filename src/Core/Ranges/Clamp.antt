-- ===== src/Core/Ranges/Clamp.antt =====
-- Ranges cut off at a bound.
use stkoe_data.Base.{ℕ, ◌^◌, ◌<◌, ◌≡◌, refl, ◌∙◌, ◌&&◌, All, arith, Option-cases, inl, inr}
use stkoe_data.Base.{List, [], ◌∷◌, some, ltb}
use stkoe_data.Core.Ranges.{
  RowRange, end, contains, intersect, filter_intersect, source, clamp_ranges,
}
use stkoe_data.Core.Ranges.Order.{Fits, covers}
use stkoe_data.Core.Ranges.Merge.{covers-merge_ranges}

module _ (bound : ℕ) (small : bound < 2 ^ 64) where
  abbrev below : RowRange
  below = record { offset = 0; length = bound }

  module _ (r : RowRange) (fits : Fits r) (ranges : List RowRange) where
    intersect-Fits : (s : RowRange) → intersect r below ≡ some s → Fits s
    unfolding intersect end
    intersect-Fits s e = ground arith

    Fits-filter_step :
        All Fits (filter_intersect below ranges) → All Fits (filter_intersect below (r ∷ ranges))
    unfolding filter_intersect
    Fits-filter_step all = elim (Option-cases (intersect r below)) [
      | inl q ↦ rw (q, All, filter_intersect) all
      | inr (s, q) ↦ rw (q, All, filter_intersect) (intersect-Fits s q, all)
    ]

    covers-filter_step :
        (row : ℕ)
        → covers (filter_intersect below ranges) row ≡ (covers ranges row && ltb row bound)
        → covers (filter_intersect below (r ∷ ranges)) row
          ≡ (covers (r ∷ ranges) row && ltb row bound)
    unfolding filter_intersect intersect end covers contains
    covers-filter_step row h = ground arith

  Fits-filter_intersect :
      (ranges : List RowRange) → All Fits ranges → All Fits (filter_intersect below ranges)
  unfolding filter_intersect
  Fits-filter_intersect [] all = tt
  Fits-filter_intersect (r ∷ ranges) all =
      Fits-filter_step r all.0 ranges (Fits-filter_intersect ranges all.1)

  covers-filter_intersect :
      (ranges : List RowRange) (row : ℕ)
      → All Fits ranges
      → covers (filter_intersect below ranges) row ≡ (covers ranges row && ltb row bound)
  unfolding filter_intersect covers
  covers-filter_intersect [] row all = refl
  covers-filter_intersect (r ∷ ranges) row all =
      covers-filter_step r all.0 ranges row (covers-filter_intersect ranges row all.1)

  covers-clamp_source :
      (ranges : List RowRange) (row : ℕ)
      → All Fits (source ranges bound)
      → covers (clamp_ranges ranges bound) row ≡ (covers (source ranges bound) row && ltb row bound)
  unfolding clamp_ranges
  covers-clamp_source ranges row all =
      covers-merge_ranges (filter_intersect below (source ranges bound)) row
        (Fits-filter_intersect (source ranges bound) all)
      ∙ covers-filter_intersect (source ranges bound) row all

  -- Clamped to a bound, ranges cover the rows below it that they covered before, and no ranges
  -- at all cover every row below it.
  -- The conditions: the bound is a `u64`, and no range wraps around at 2^64.
  pub covers-clamp_ranges :
      (row : ℕ) (r : RowRange) (ranges : List RowRange)
      → All Fits (r ∷ ranges)
      → (covers (clamp_ranges [] bound) row ≡ ltb row bound)
        × (covers (clamp_ranges (r ∷ ranges) bound) row
            ≡ (covers (r ∷ ranges) row && ltb row bound))
  unfolding source covers contains end
  covers-clamp_ranges row r ranges all = (
    covers-clamp_source [] row (ground arith, tt) ∙ ground arith,
    covers-clamp_source (r ∷ ranges) row all,
  )
