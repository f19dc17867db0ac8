-- ===== src/Codec/Rle/Sizes.antt =====
-- How many bytes the runs take.
use stkoe_data.Base.{ℕ, zero, suc, ◌+◌, ◌-◌, ◌*◌, ◌%◌, ◌^◌, ◌≤◌, ◌≡◌, List, ◌++◌, length}
use stkoe_data.Base.{
  le_bytes, arith, Bool-cases, inl, inr, ltb, length-append, length-le_bytes, length-word,
}
use stkoe_data.Codec.Rle.{cell, count_run, encode_loop}
use stkoe_data.Codec.Rle.Laws.{count_run-IsRun, first-IsRun}

pair_bound :
    (n s i run : ℕ) → 1 ≤ run → i + run ≤ n → 4 + s + (n - (i + run)) * (4 + s) ≤ (n - i) * (4 + s)
pair_bound n s i run h k = grind arith

pub length-encode_loop-le :
    (fuel n s : ℕ) (values : List ℕ) (i : ℕ)
    → length values ≡ n * s
    → length (encode_loop fuel n s values i) ≤ (n - i) * (4 + s)
unfolding encode_loop
length-encode_loop-le zero n s values i sized = omega arith
length-encode_loop-le (suc fuel) n s values i sized = elim (Bool-cases (ltb i n)) [
  | inr q ↦ rw q (omega arith)
  | inl q ↦ rw q (
      let run = count_run n n s values i 1 in
      let (one, r) =
        count_run-IsRun n n s values i 1 (omega arith) (first-IsRun n s values i (ground arith)) in
      let there : i + run ≤ n = r.inside in
      omega (
        arith,
        length-append (le_bytes 4 (run % 2 ^ 32))
            (cell s values i ++ encode_loop fuel n s values (i + run)),
        length-append (cell s values i) (encode_loop fuel n s values (i + run)),
        length-le_bytes 4 (run % 2 ^ 32),
        length-word s values n i sized (ground arith),
        length-encode_loop-le fuel n s values (i + run) sized,
        pair_bound n s i run one there,
      ))
]
