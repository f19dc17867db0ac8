-- ===== src/Codec/Rle.antt =====
-- crates/splayed-codec/src/rle.rs: `(run length, value)` pairs.
-- `panic` also stands for exhausted fuel, see `Rle/Total`. A buffer that the memory has no room
-- for is not modelled.
pub mod Total
pub mod Laws
pub mod Sizes
use stkoe_data.Base.{ℕ, zero, suc, ◌+◌, ◌*◌, ◌/◌, ◌%◌, ◌^◌, Bool, true, false, List, [], ◌∷◌, ◌++◌}
use stkoe_data.Base.{◌&&◌, length, take, drop, le_bytes, from_le, ok, err, panic, guard, assert}
use stkoe_data.Base.{◌>>=◌, ◌>>◌, ◌==◌, ltb, if◌then◌else◌}
use stkoe_data.Format.DataType.{DataType, size_of}
use stkoe_data.Codec.Errors.{Codec, row_count_mismatch, truncated, corrupt}

unfoldable pub bytes_eq : List ℕ → List ℕ → Bool
bytes_eq [] [] = true
bytes_eq [] (y ∷ ys) = false
bytes_eq (x ∷ xs) [] = false
bytes_eq (x ∷ xs) (y ∷ ys) = (x == y) && bytes_eq xs ys

-- `values[i * s..i * s + s]`
abbrev pub cell : ℕ → List ℕ → ℕ → List ℕ
cell s values i = take s (drop (i * s) values)

-- The inner loop: how far the value at `i` repeats, from `run` on. `fuel` bounds the rounds.
pub count_run : ℕ → ℕ → ℕ → List ℕ → ℕ → ℕ → ℕ
count_run zero n s values i run = run
count_run (suc fuel) n s values i run =
    let more = count_run fuel n s values i (run + 1) in
    if ltb (i + run) n && bytes_eq (cell s values (i + run)) (cell s values i) then more else run

-- The outer loop from row `i` on.
pub encode_loop : ℕ → ℕ → ℕ → List ℕ → ℕ → List ℕ
encode_loop zero n s values i = []
encode_loop (suc fuel) n s values i =
    let run = count_run n n s values i 1 in
    let rest = encode_loop fuel n s values (i + run) in
    if ltb i n then le_bytes 4 (run % 2 ^ 32) ++ (cell s values i ++ rest) else []

-- The division by the width panics on `Utf8`. A run has a row at least, so `n` rounds suffice.
unfoldable pub encode : DataType → List ℕ → Codec (List ℕ)
unfolding encode_loop count_run bytes_eq
encode data_type values =
    let s = size_of data_type in
    let n = length values / s in if s == 0 then panic else ok (encode_loop n n s values 0)

-- `value`, `run` times.
unfoldable pub repeat : ℕ → List ℕ → List ℕ
repeat zero value = []
repeat (suc run) value = value ++ repeat run value

-- `while got < rows`: the position behind the last run, and the values.
pub decode_loop : ℕ → ℕ → List ℕ → ℕ → ℕ → ℕ → List ℕ → Codec (ℕ × List ℕ)
decode_loop zero s payload rows got pos out = panic
decode_loop (suc fuel) s payload rows got pos out =
    let run = from_le (take 4 (drop pos payload)) in
    let value = take s (drop (pos + 4) payload) in
    let more =
      decode_loop fuel s payload rows (got + run) (pos + (4 + s)) (out ++ repeat run value) in
    let step =
      if ltb (length payload) (pos + 4 + s)
      then err (truncated (pos + 4 + s) (length payload))
      else if ltb rows (got + run)
      then err (row_count_mismatch rows (got + run))
      else more in
    if ltb got rows then step else ok (pos, out)

-- `Vec::with_capacity` of so many bytes panics from 2^63 on, behind `isize::MAX`.
unfoldable pub with_capacity : ℕ → Codec (Unit {0})
with_capacity bytes = assert (ltb bytes (2 ^ 63))

-- The product is a `usize`. Each round reads four bytes at least, so `length payload` rounds and
-- the last test suffice.
unfoldable pub decode : DataType → List ℕ → ℕ → Codec (List ℕ)
unfolding decode_loop repeat with_capacity
decode data_type payload rows = do
  with_capacity (rows * size_of data_type % 2 ^ 64)
  (pos, out) ← decode_loop (length payload + 1) (size_of data_type) payload rows 0 0 []
  guard (pos == length payload) (corrupt "trailing bytes after final run")
  ok out
