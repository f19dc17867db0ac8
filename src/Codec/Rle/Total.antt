-- ===== src/Codec/Rle/Total.antt =====
-- `decode` on any payload, well formed or not.
use stkoe_data.Base.{ℕ, zero, suc, ◌+◌, ◌*◌, ◌%◌, ◌^◌, ◌≤◌, ◌<◌, ◌≡◌, ◌≢◌, ◌↔◌, List, [], ◌++◌}
use stkoe_data.Base.{length, take, drop, from_le, ok, panic, arith, length-append, length-take}
use stkoe_data.Base.{length-drop, ap, >>=-eq-ok}
use stkoe_data.Format.DataType.{DataType, size_of}
use stkoe_data.Codec.Rle.{repeat, decode_loop, with_capacity, decode}

decode_loop-ne-panic :
    (fuel s : ℕ) (payload : List ℕ) (rows got pos : ℕ) (out : List ℕ)
    → pos ≤ length payload
    → length payload < fuel + pos
    → decode_loop fuel s payload rows got pos out ≢ panic
unfolding decode_loop
decode_loop-ne-panic zero s payload rows got pos out h k e = omega arith
decode_loop-ne-panic (suc fuel) s payload rows got pos out h k e = ground (
  arith,
  decode_loop-ne-panic fuel s payload rows (got + from_le (take 4 (drop pos payload)))
      (pos + (4 + s))
      (out ++ repeat (from_le (take 4 (drop pos payload))) (take s (drop (pos + 4) payload))),
)

pub decode-panic :
    (data_type : DataType) (payload : List ℕ) (rows : ℕ)
    → (decode data_type payload rows ≡ panic) ↔ (2 ^ 63 ≤ rows * size_of data_type % 2 ^ 64)
unfolding decode with_capacity
decode-panic data_type payload rows = ground (
  arith,
  decode_loop-ne-panic (length payload + 1) (size_of data_type) payload rows 0 0 [] (omega arith)
      (omega arith),
)

pub length-repeat : (k : ℕ) (value : List ℕ) → length (repeat k value) ≡ k * length value
unfolding repeat
length-repeat zero value = omega arith
length-repeat (suc k) value =
    omega (arith, length-append value (repeat k value), length-repeat k value)

-- A value that lies in the payload has the width of the type.
length-value :
    (s pos : ℕ) (payload : List ℕ)
    → pos + 4 + s ≤ length payload
    → length (take s (drop (pos + 4) payload)) ≡ s
length-value s pos payload h =
    omega (arith, length-take s (drop (pos + 4) payload), length-drop (pos + 4) payload)

length-extended :
    (s got run : ℕ) (out value : List ℕ)
    → length out ≡ got * s
    → length value ≡ s
    → length (out ++ repeat run value) ≡ (got + run) * s
length-extended s got run out value h k = omega (
  arith,
  length-append out (repeat run value),
  length-repeat run value,
  ap (λ (t : ℕ). run * t) k,
)

length-decode_loop :
    (fuel s : ℕ) (payload : List ℕ) (rows got pos : ℕ) (out : List ℕ) (pos' : ℕ) (out' : List ℕ)
    → got ≤ rows
    → length out ≡ got * s
    → decode_loop fuel s payload rows got pos out ≡ ok (pos', out')
    → length out' ≡ rows * s
unfolding decode_loop
length-decode_loop zero s payload rows got pos out pos' out' g h e = cc
length-decode_loop (suc fuel) s payload rows got pos out pos' out' g h e =
    let run = from_le (take 4 (drop pos payload)) in
    let value = take s (drop (pos + 4) payload) in
    ground (
      arith,
      length-decode_loop fuel s payload rows (got + run) (pos + (4 + s)) (out ++ repeat run value)
          pos' out',
      length-extended s got run out value h,
      length-value s pos payload,
    )

-- A successful decoding has the requested number of rows.
pub length-decode :
    (data_type : DataType) (payload : List ℕ) (rows : ℕ) {out : List ℕ}
    → decode data_type payload rows ≡ ok out
    → length out ≡ rows * size_of data_type
unfolding decode
length-decode data_type payload rows {out} e =
    let s = size_of data_type in
    let (u, roomy, e0) = >>=-eq-ok (with_capacity (rows * s % 2 ^ 64)) _ e in
    let (r, e', k) = >>=-eq-ok (decode_loop (length payload + 1) s payload rows 0 0 []) _ e0 in
    ground (
      arith,
      length-decode_loop (length payload + 1) s payload rows 0 0 [] r.0 r.1 (omega arith)
          (omega arith) e',
      k,
    )
