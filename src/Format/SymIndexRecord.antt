-- ===== src/Format/SymIndexRecord.antt =====
-- `SymIndexRecord` of crates/splayed-format/src/meta.rs: where a symbol's times and rows lie.
-- Sums of `u32` wrap around, as in a release build.
use stkoe_data.Base.{
  ℕ, ◌+◌, ◌-◌, ◌%◌, ◌^◌, ◌<◌, ◌≤◌, ◌≡◌, ◌↔◌, List, ◌++◌, length, take, drop, le_bytes, from_le,
}
use stkoe_data.Base.{
  Bool, ◌&&◌, Option, none, some, Result, ok, guard, ◌>>◌, leb, ltb, if◌then◌else◌,
}
use stkoe_data.Base.{arith, le→leb, from_le-le_bytes_of_lt}
use stkoe_data.Format.Errors.{FormatError, size_mismatch}

abbrev pub sym_index_record_size : ℕ
sym_index_record_size = 12

pub record SymIndexRecord : Type 0 where
  pub time_start : ℕ
  pub time_count : ℕ
  pub row_start : ℕ

unfoldable pub to_bytes : SymIndexRecord → List ℕ
to_bytes r = le_bytes 4 r.time_start ++ (le_bytes 4 r.time_count ++ le_bytes 4 r.row_start)

unfoldable pub from_bytes : List ℕ → Result FormatError SymIndexRecord
from_bytes bytes = do
  guard (leb sym_index_record_size (length bytes))
      (size_mismatch sym_index_record_size (length bytes))
  ok (record {
    time_start = from_le (take 4 bytes);
    time_count = from_le (take 4 (drop 4 bytes));
    row_start = from_le (take 4 (drop 8 bytes));
  })

unfoldable pub row_range : SymIndexRecord → ℕ × ℕ
row_range r = (r.row_start, (r.row_start + r.time_count) % 2 ^ 32)

unfoldable pub contains_time : SymIndexRecord → ℕ → Bool
contains_time r time_index =
    leb r.time_start time_index && ltb time_index ((r.time_start + r.time_count) % 2 ^ 32)

unfoldable pub global_row : SymIndexRecord → ℕ → Option ℕ
unfolding contains_time
global_row r time_index =
    if contains_time r time_index
    then some ((r.row_start + (time_index - r.time_start)) % 2 ^ 32)
    else none

-- Each field is a `u32`, and neither the times nor the rows of the symbol wrap around.
pub record Fits (r : SymIndexRecord) : Type 0 where
  pub times : r.time_start + r.time_count < 2 ^ 32
  pub rows : r.row_start + r.time_count < 2 ^ 32

record-long :
    (r : SymIndexRecord) (rest : List ℕ) → sym_index_record_size ≤ length (to_bytes r ++ rest)
unfolding to_bytes le_bytes
record-long r rest = omega arith

-- A record of the symbol index is read back from its bytes, whatever follows them.
-- The condition: the times and the rows of the symbol stay below 2^32.
pub from_bytes-to_bytes_sym :
    (r : SymIndexRecord) (rest : List ℕ) → Fits r → from_bytes (to_bytes r ++ rest) ≡ ok r
unfolding from_bytes to_bytes le_bytes
from_bytes-to_bytes_sym r rest f =
    rw (le→leb sym_index_record_size (length (to_bytes r ++ rest)) (record-long r rest)) (λ i.
      ok (record {
        time_start = from_le-le_bytes_of_lt 4 r.time_start (omega (arith, f.times)) i;
        time_count = from_le-le_bytes_of_lt 4 r.time_count (omega (arith, f.times)) i;
        row_start = from_le-le_bytes_of_lt 4 r.row_start (omega (arith, f.rows)) i;
      }))

-- Which times of the time axis have a row, and which row it is.
global_row-place :
    (r : SymIndexRecord) (t row : ℕ)
    → Fits r
    → (global_row r t ≡ some row) ↔ (
        (r.time_start ≤ t)
        × (t < r.time_start + r.time_count)
        × (r.time_start + row ≡ r.row_start + t))
unfolding global_row contains_time
global_row-place r t row f = ground (arith, f.times, f.rows)

-- `global_row` is an order isomorphism of the times of a symbol onto its row range: it has a row for
-- a time exactly when the time is one of the symbol's, a later time has a later row, and the rows
-- that it has for a time are exactly the rows of the range.
-- The condition: the times and the rows of the symbol stay below 2^32.
pub global_row-row_range :
    (r : SymIndexRecord)
    → Fits r
    → ((t : ℕ)
        → ((row : ℕ) × (global_row r t ≡ some row))
          ↔ ((r.time_start ≤ t) × (t < r.time_start + r.time_count)))
      × ((t u row later : ℕ)
          → global_row r t ≡ some row
          → global_row r u ≡ some later
          → (t < u) ↔ (row < later))
      × ((row : ℕ)
          → ((t : ℕ) × (global_row r t ≡ some row))
            ↔ (((row_range r).0 ≤ row) × (row < (row_range r).1)))
unfolding row_range
global_row-row_range r f = (
  λ t. (
    λ (row, e). (let p = (global_row-place r t row f).0 e in (p.0, p.1)),
    λ (late, early).
        let row : ℕ = r.row_start + t - r.time_start in
        (row, (global_row-place r t row f).1 (late, early, omega arith)),
  ),
  λ t u row later e e'.
      let p = (global_row-place r t row f).0 e in
      let q = (global_row-place r u later f).0 e' in (λ h. omega arith, λ h. omega arith),
  λ row. (
    λ (t, e). (let p = (global_row-place r t row f).0 e in (omega arith, omega (arith, f.rows))),
    λ (low, high).
        let t : ℕ = r.time_start + row - r.row_start in
        (t, (global_row-place r t row f).1 (omega arith, omega (arith, f.rows), omega arith)),
  ),
)
