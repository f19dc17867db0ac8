-- ===== src/Core/Field/Runs.antt =====
-- `next_true_run` of crates/splayed-core/src/field_file.rs: the next run of hits in a mask of
-- 64-bit words. An index out of bounds is `panic`.
pub mod Search
pub mod Extend
use stkoe_data.Base.{
  ℕ, zero, suc, ◌+◌, ◌-◌, ◌*◌, ◌/◌, ◌%◌, ◌^◌, min, bit_and, List, length, get_elem?, Bool, Option,
  none, some, ok, panic, ◌>>=◌, ◌==◌, leb, if◌then◌else◌,
}
use stkoe_data.Core.Lookup.{Core}

-- `w.trailing_zeros()` of a number of `k` bits.
unfoldable pub trailing_zeros : ℕ → ℕ → ℕ
trailing_zeros zero w = 0
trailing_zeros (suc k) w = let rest = trailing_zeros k (w / 2) in if w % 2 == 1 then 0 else suc rest

-- `mask[i]`
abbrev pub word : List ℕ → ℕ → Core ℕ
word mask i = elim (get_elem? mask i) [ none ↦ panic | some w ↦ ok w ]

-- The first set bit from `pos` on. A round passes a word.
unfoldable pub find_start : ℕ → List ℕ → ℕ → ℕ → Core (Option ℕ)
unfolding trailing_zeros
find_start zero mask len pos = ok none
find_start (suc fuel) mask len pos =
    let rest = find_start fuel mask len ((pos / 64 + 1) * 64) in
    word mask (pos / 64) >>= λ m.
    let w = bit_and m ((2 ^ 64 - 1) * 2 ^ (pos % 64) % 2 ^ 64) in
    if w == 0
    then (if leb len ((pos / 64 + 1) * 64) then ok none else rest)
    else ok (some (pos / 64 * 64 + trailing_zeros 64 w))

-- The end of the run that goes on at `end`. A round passes a word.
unfoldable pub extend_run : ℕ → List ℕ → ℕ → Core ℕ
unfolding trailing_zeros
extend_run zero mask end = ok end
extend_run (suc fuel) mask end =
    let rest = extend_run fuel mask ((end / 64 + 1) * 64) in
    word mask (end / 64) >>= λ m.
    let zeros = (2 ^ 64 - 1 - m) / 2 ^ (end % 64) in
    if zeros == 0
    then (if leb (length mask) ((end / 64 + 1) * 64 / 64) then ok ((end / 64 + 1) * 64) else rest)
    else ok (end + trailing_zeros 64 zeros)

unfoldable pub next_true_run : List ℕ → ℕ → ℕ → Core (Option (ℕ × ℕ))
unfolding find_start extend_run
next_true_run mask len from =
    if leb len from
    then ok none
    else (find_start (length mask) mask len from >>= λ found. elim found [
      | none ↦ ok none
      | some start ↦ extend_run (length mask) mask start >>= λ end. ok (some (start, min end len))
    ])
