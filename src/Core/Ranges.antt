-- ===== src/Core/Ranges.antt =====
-- crates/splayed-core/src/scan.rs: ranges of rows. Offsets and lengths are `u64`.
pub mod Order
pub mod Merge
pub mod Clamp
use stkoe_data.Base.{ℕ, ◌+◌, ◌-◌, ◌%◌, ◌^◌, ◌<◌, min, max, Bool, true, false, ◌&&◌, ◌||◌}
use stkoe_data.Base.{List, [], ◌∷◌, Option, none, some, ltb, leb, ◌==◌, if◌then◌else◌}

pub record RowRange : Type 0 where
  pub offset : ℕ
  pub length : ℕ

unfoldable pub end : RowRange → ℕ
end r = (r.offset + r.length) % 2 ^ 64

unfoldable pub intersect : RowRange → RowRange → Option RowRange
unfolding end
intersect r other =
    let start = max r.offset other.offset in
    let stop = min (end r) (end other) in
    if ltb start stop then some (record { offset = start; length = stop - start }) else none

unfoldable pub contains : RowRange → ℕ → Bool
unfolding end
contains r row = leb r.offset row && ltb row (end r)

-- `(r.offset, r.end()) <= (s.offset, s.end())`
unfoldable pub key_le : RowRange → RowRange → Bool
unfolding end
key_le r s = ltb r.offset s.offset || ((r.offset == s.offset) && leb (end r) (end s))

-- The stable sort of the standard library, by insertion.
unfoldable pub insert : RowRange → List RowRange → List RowRange
unfolding key_le
insert r [] = r ∷ []
insert r (s ∷ ranges) =
    let rest = insert r ranges in if key_le r s then r ∷ (s ∷ ranges) else s ∷ rest

unfoldable pub sort_by_key : List RowRange → List RowRange
unfolding insert
sort_by_key [] = []
sort_by_key (r ∷ ranges) = insert r (sort_by_key ranges)

-- `last` with what `r` adds behind it.
unfoldable pub extend : RowRange → RowRange → RowRange
unfolding end
extend last r = record {
  offset = last.offset;
  length = max last.length ((end r + 2 ^ 64 - last.offset) % 2 ^ 64);
}

-- The loop of `merge_ranges`: `last` is the last range of `out`.
unfoldable pub merge_loop : RowRange → List RowRange → List RowRange
unfolding extend
merge_loop last [] = last ∷ []
merge_loop last (r ∷ ranges) =
    let touches = leb r.offset (end last) in
    let rest = merge_loop (if touches then extend last r else r) ranges in
    if touches then rest else last ∷ rest

merge_sorted : List RowRange → List RowRange
unfolding merge_loop
merge_sorted [] = []
merge_sorted (r ∷ ranges) = merge_loop r ranges

-- A list of at most one range is returned as it is.
unfoldable pub merge_ranges : List RowRange → List RowRange
unfolding merge_sorted sort_by_key
merge_ranges [] = []
merge_ranges (r ∷ []) = r ∷ []
merge_ranges (r ∷ (s ∷ ranges)) = merge_sorted (sort_by_key (r ∷ (s ∷ ranges)))

unfoldable pub filter_intersect : RowRange → List RowRange → List RowRange
unfolding intersect
filter_intersect other [] = []
filter_intersect other (r ∷ ranges) =
    let rest = filter_intersect other ranges in
    elim (intersect r other) [ some s ↦ s ∷ rest | none ↦ rest ]

-- No range stands for the whole space.
unfoldable pub source : List RowRange → ℕ → List RowRange
source [] bound = record { offset = 0; length = bound } ∷ []
source (r ∷ ranges) bound = r ∷ ranges

unfoldable pub clamp_ranges : List RowRange → ℕ → List RowRange
unfolding filter_intersect merge_ranges source
clamp_ranges ranges bound =
    merge_ranges (filter_intersect (record { offset = 0; length = bound }) (source ranges bound))
