-- ===== src/Core/Tests.antt =====
-- Concrete ranges and a concrete META file, and the theorems applied to them.
use Prim.Native.Nat.{compare}
use stkoe_data.Base.{
  ℕ, zero, suc, ◌≤◌, ◌<◌, ◌≡◌, ◌↔◌, refl, List, [], ◌∷◌, ◌++◌, true, ◌&&◌, some, ok, arith, ltb,
  le_bytes, from_le, get_or, All,
}
use stkoe_data.Format.TimeType
use stkoe_data.Format.TimeType.{date32}
use stkoe_data.Format.MetaHeader
use stkoe_data.Format.MetaHeader.{MetaHeader}
use stkoe_data.Core.Ranges.{RowRange, merge_ranges, clamp_ranges}
use stkoe_data.Core.Ranges.{end}
use stkoe_data.Core.IndexScan.{intersect_loop}
use stkoe_data.Core.IndexScan.Overlap.{covers-intersect_loop}
use stkoe_data.Core.Chunks.{compute_chunk_boundaries, IsTiling, compute_chunk_boundaries-IsTiling}
use stkoe_data.Core.Ranges.Order.{Fits, covers}
use stkoe_data.Core.Ranges.Merge.{IsSeparated, covers-merge_ranges, merge_ranges-IsSeparated}
use stkoe_data.Core.Ranges.Clamp.{covers-clamp_ranges}
use stkoe_data.Core.Lookup.{MetaHandle, time_at, axis_lower_bound}
use stkoe_data.Core.Lookup.Search.{IsAxis, IsLowerBound, axis_lower_bound-IsLowerBound}
use stkoe_data.Core.Predicate.{lt, matches, Holds, matches-compare}
use stkoe_data.Core.Scanner.{produced, total, total-produced-le}

abbrev first : RowRange
first = record { offset = 100; length = 30 }

abbrev others : List RowRange
others = record { offset = 50; length = 10 } ∷ (record { offset = 130; length = 20 } ∷ [])

ranges-Fits : All Fits (first ∷ others)
ranges-Fits = ground arith

covers-merge_ranges_example :
    covers (merge_ranges (first ∷ others)) 140 ≡ covers (first ∷ others) 140
covers-merge_ranges_example = covers-merge_ranges (first ∷ others) 140 ranges-Fits

merge_ranges-IsSeparated_example : IsSeparated (merge_ranges (first ∷ others))
merge_ranges-IsSeparated_example = merge_ranges-IsSeparated (first ∷ others)

covers-clamp_ranges_example :
    (covers (clamp_ranges [] 120) 110 ≡ ltb 110 120)
    × (covers (clamp_ranges (first ∷ others) 120) 110
        ≡ (covers (first ∷ others) 110 && ltb 110 120))
covers-clamp_ranges_example = covers-clamp_ranges 120 (omega arith) 110 first others ranges-Fits

abbrev times : ℕ → ℕ
times i = get_or (10 ∷ 20 ∷ 30 ∷ []) i 0

abbrev handle : MetaHandle
unfolding MetaHeader.new_header TimeType.id MetaHeader.to_bytes le_bytes
handle = record {
  mmap =
      MetaHeader.to_bytes (MetaHeader.new_header date32 7 3 0 0 76 84 84)
      ++ (le_bytes 4 10 ++ (le_bytes 4 20 ++ (le_bytes 4 30 ++ le_bytes 8 0)));
  header = MetaHeader.new_header date32 7 3 0 0 76 84 84;
}

handle-readable : (i : ℕ) → i < 3 → time_at handle i ≡ ok (times i)
unfolding time_at MetaHeader.time_type_size TimeType.from_id TimeType.size_of from_le handle
handle-readable zero h = refl
handle-readable (suc zero) h = refl
handle-readable (suc (suc zero)) h = refl
handle-readable (suc (suc (suc i))) h = absurd (omega arith)

times_ascending : (i j : ℕ) → i ≤ j → j < 3 → times i ≤ times j
times_ascending zero zero h k = omega arith
times_ascending zero (suc zero) h k = omega arith
times_ascending zero (suc (suc zero)) h k = omega arith
times_ascending (suc zero) zero h k = absurd (omega arith)
times_ascending (suc zero) (suc zero) h k = omega arith
times_ascending (suc zero) (suc (suc zero)) h k = omega arith
times_ascending (suc (suc zero)) zero h k = absurd (omega arith)
times_ascending (suc (suc zero)) (suc zero) h k = absurd (omega arith)
times_ascending (suc (suc zero)) (suc (suc zero)) h k = omega arith
times_ascending (suc (suc (suc i))) j h k = absurd (omega arith)
times_ascending i (suc (suc (suc j))) h k = absurd (omega arith)

handle-IsAxis : IsAxis handle times
unfolding handle
handle-IsAxis = record {
  count_fits = omega arith;
  readable = handle-readable;
  ascending = times_ascending;
}

axis_lower_bound-IsLowerBound_example :
    (bound : ℕ) × (axis_lower_bound handle 15 ≡ ok bound)
    × IsLowerBound times handle.header.time_count 15 bound
axis_lower_bound-IsLowerBound_example = axis_lower_bound-IsLowerBound handle times handle-IsAxis 15

matches-compare_example : (matches lt (compare 3 5) ≡ true) ↔ Holds lt 3 5
matches-compare_example = matches-compare lt 3 5

total-produced-le_example :
    total (produced 5 (record { ranges = first ∷ others; pos = 0; limit = some 35 })) ≤ 35
total-produced-le_example = total-produced-le 5 (first ∷ others) 0 35

abbrev window : List RowRange
window = record { offset = 20; length = 35 } ∷ (record { offset = 90; length = 20 } ∷ [])

abbrev merged : List RowRange
merged = record { offset = 50; length = 10 } ∷ (first ∷ [])

merged-IsSeparated : IsSeparated merged
unfolding IsSeparated end
merged-IsSeparated = ground arith

window-IsSeparated : IsSeparated window
unfolding IsSeparated end
window-IsSeparated = ground arith

covers-intersect_loop_example :
    covers (intersect_loop 4 merged window) 52 ≡ (covers merged 52 && covers window 52)
covers-intersect_loop_example =
    covers-intersect_loop 4 merged window 52 (omega arith) merged-IsSeparated window-IsSeparated

abbrev chunks : List (ℕ × ℕ)
chunks = (0, 3) ∷ ((3, 7) ∷ ((7, 10) ∷ []))

chunks_computed : compute_chunk_boundaries 10 (some (0 ∷ (7 ∷ (3 ∷ [])))) ≡ ok chunks
unfolding compute_chunk_boundaries
chunks_computed = refl

compute_chunk_boundaries-IsTiling_example : IsTiling 0 10 chunks
compute_chunk_boundaries-IsTiling_example =
    compute_chunk_boundaries-IsTiling 10 (some (0 ∷ (7 ∷ (3 ∷ [])))) chunks chunks_computed
