-- ===== src/Core/IndexScan/Overlap.antt =====
-- The intersection of two lists of ranges.
use stkoe_data.Base.{
  ℕ, zero, suc, ◌+◌, ◌-◌, ◌≤◌, ◌<◌, ◌≡◌, refl, ap, ◌∙◌, Bool, true, false, ◌&&◌, ◌||◌, All, min,
  max,
}
use stkoe_data.Base.{List, [], ◌∷◌, length, ltb, leb, if◌then◌else◌, arith, Bool-cases, inl, inr}
use stkoe_data.Core.Ranges.{RowRange, end, contains}
use stkoe_data.Core.Ranges.Order.{covers}
use stkoe_data.Core.Ranges.Merge.{IsSeparated}
use stkoe_data.Core.IndexScan.{intersect_loop}

covers-after :
    (stop : ℕ) (ranges : List RowRange) (row : ℕ)
    → All (λ (s : RowRange). stop < s.offset) ranges
    → row < stop
    → covers ranges row ≡ false
unfolding covers contains
covers-after stop [] row all h = refl
covers-after stop (s ∷ ranges) row all h =
    ground (arith, all.0, covers-after stop ranges row all.1 h)

covers-overlap :
    (r s : RowRange) (rest : List RowRange) (row : ℕ)
    → covers
        (if ltb (max r.offset s.offset) (min (end r) (end s))
          then record {
            offset = max r.offset s.offset;
            length = min (end r) (end s) - max r.offset s.offset;
          }
            ∷ rest
          else rest)
        row
      ≡ ((contains r row && contains s row) || covers rest row)
unfolding covers contains end
covers-overlap r s rest row = ground arith

pass_first :
    (a b c d : Bool)
    → (a ≡ true → d ≡ false)
    → ((a && b) || (c && (b || d))) ≡ ((a || c) && (b || d))
pass_first true true c d h = refl
pass_first true false c d h = ground (arith, h refl)
pass_first false b c d h = refl

pass_second :
    (a b c d : Bool)
    → (b ≡ true → c ≡ false)
    → ((a && b) || ((a || c) && d)) ≡ ((a || c) && (b || d))
pass_second a true c d h = ground (arith, h refl)
pass_second true false c d h = refl
pass_second false false c d h = refl

contains-lt_end : (r : RowRange) (row : ℕ) → contains r row ≡ true → row < end r
unfolding contains
contains-lt_end r row h = ground arith

-- The rows that the intersection of two separated lists of ranges covers are those that both
-- lists cover.
-- The condition: the rounds are as many as the ranges of the two lists together.
pub covers-intersect_loop :
    (fuel : ℕ) (merged clamped : List RowRange) (row : ℕ)
    → length merged + length clamped ≤ fuel
    → IsSeparated merged
    → IsSeparated clamped
    → covers (intersect_loop fuel merged clamped) row ≡ (covers merged row && covers clamped row)
unfolding intersect_loop covers IsSeparated
covers-intersect_loop zero [] clamped row f h k = refl
covers-intersect_loop zero (r ∷ merged) clamped row f h k = absurd (omega arith)
covers-intersect_loop (suc fuel) [] clamped row f h k = refl
covers-intersect_loop (suc fuel) (r ∷ merged) [] row f h k = ground arith
covers-intersect_loop (suc fuel) (r ∷ merged) (s ∷ clamped) row f h k =
    elim (Bool-cases (leb (end r) (end s))) [
      | inl q ↦ rw q (
          covers-overlap r s (intersect_loop fuel merged (s ∷ clamped)) row
          ∙ (ap (λ b. (contains r row && contains s row) || b)
                (covers-intersect_loop fuel merged (s ∷ clamped) row (omega arith) h.1 k)
              ∙ pass_first (contains r row) (contains s row) (covers merged row)
                  (covers clamped row)
                  (λ c.
                    covers-after (end s) clamped row k.0
                      (let p = contains-lt_end r row c in ground arith))))
      | inr q ↦ rw q (
          covers-overlap r s (intersect_loop fuel (r ∷ merged) clamped) row
          ∙ (ap (λ b. (contains r row && contains s row) || b)
                (covers-intersect_loop fuel (r ∷ merged) clamped row (omega arith) h k.1)
              ∙ pass_second (contains r row) (contains s row) (covers merged row)
                  (covers clamped row)
                  (λ c.
                    covers-after (end r) merged row h.0
                      (let p = contains-lt_end s row c in ground arith))))
    ]
