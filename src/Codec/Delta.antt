-- ===== src/Codec/Delta.antt =====
-- crates/splayed-codec/src/delta.rs: differences of neighbouring words, modulo the word.
pub mod Laws
use stkoe_data.Base.{ℕ, zero, suc, ◌+◌, ◌-◌, ◌*◌, ◌/◌, ◌%◌, ◌^◌, List, [], ◌++◌}
use stkoe_data.Base.{length, take, drop, replicate, from_le, low_bytes, ok, panic, guard}
use stkoe_data.Base.{◌>>=◌, ◌>>◌, ◌==◌, if◌then◌else◌}
use stkoe_data.Format.DataType.{DataType, size_of}
use stkoe_data.Codec.Errors.{Codec, row_count_mismatch}

-- The word of `s` bytes at `index`, zero-extended to a `u64`.
unfoldable pub read_word : List ℕ → ℕ → ℕ → ℕ
read_word buf index s = from_le (take s (drop (index * s) buf) ++ replicate (8 - s) 0)

abbrev pub wrapping_sub : ℕ → ℕ → ℕ
wrapping_sub a b = (a + 2 ^ 64 - b) % 2 ^ 64

abbrev pub wrapping_add : ℕ → ℕ → ℕ
wrapping_add a b = (a + b) % 2 ^ 64

-- The word that is stored for row `i`.
pub delta_word : List ℕ → ℕ → ℕ → ℕ
delta_word values s i =
    if i == 0
    then read_word values 0 s
    else wrapping_sub (read_word values i s) (read_word values (i - 1) s)

-- The rows from `i` on, `left` of them.
pub encode_loop : ℕ → List ℕ → ℕ → ℕ → List ℕ
encode_loop s values zero i = []
encode_loop s values (suc left) i =
    low_bytes s (delta_word values s i) ++ encode_loop s values left (i + 1)

-- The division by the width panics on `Utf8`.
unfoldable pub encode : DataType → List ℕ → Codec (List ℕ)
unfolding encode_loop delta_word read_word
encode data_type values =
    let s = size_of data_type in
    if s == 0 then panic else ok (encode_loop s values (length values / s) 0)

-- The rows from `i` on, each written behind the one before.
pub decode_loop : ℕ → List ℕ → ℕ → ℕ → ℕ → List ℕ
decode_loop s payload zero i prev = []
decode_loop s payload (suc left) i prev =
    let delta = read_word payload i s in
    let value = if i == 0 then delta else wrapping_add prev delta in
    low_bytes s value ++ decode_loop s payload left (i + 1) value

unfoldable pub decode : DataType → List ℕ → ℕ → Codec (List ℕ)
unfolding decode_loop read_word
decode data_type payload rows = do
  let s = size_of data_type
  let expected = rows * s
  guard (length payload == expected) (row_count_mismatch expected (length payload))
  ok (decode_loop s payload rows 0 0)
