-- ===== src/Codec/Bitpack.antt =====
-- crates/splayed-codec/src/bitpack.rs: values in the bits of the widest one, lowest bit first.
-- An `i64` is its bit pattern, a number below 2^64.
pub mod Zigzag
pub mod Bits
pub mod Read
pub mod Rows
pub mod Width
pub mod Laws
use stkoe_data.Base.{ℕ, zero, suc, ◌+◌, ◌-◌, ◌*◌, ◌/◌, ◌%◌, ◌^◌, min, max, bit_and, bit_or, bit_xor}
use stkoe_data.Base.{
  List, [], ◌∷◌, ◌++◌, length, take, drop, replicate, get_or, set, from_le, le_bytes,
}
use stkoe_data.Base.{low_bytes, ok, err, panic, guard, ◌>>=◌, ◌>>◌, ◌==◌, ltb, leb, if◌then◌else◌}
use stkoe_data.Format.DataType.{DataType, size_of, is_signed_int}
use stkoe_data.Codec.Errors.{Codec, truncated, corrupt}

-- `x >> k` on an `i64`
unfoldable pub sar : ℕ → ℕ → ℕ
sar x k = if ltb x (2 ^ 63) then x / 2 ^ k else x / 2 ^ k + (2 ^ 64 - 2 ^ (64 - k))

unfoldable pub zigzag_encode : ℕ → ℕ
unfolding sar
zigzag_encode v = bit_xor (v * 2 % 2 ^ 64) (sar v 63)

unfoldable pub zigzag_decode : ℕ → ℕ
zigzag_decode u = bit_xor (u / 2) ((2 ^ 64 - bit_and u 1) % 2 ^ 64)

unfoldable pub map_to_u64 : DataType → List ℕ → ℕ
unfolding zigzag_encode
map_to_u64 data_type bytes =
    let raw = from_le (bytes ++ replicate (8 - length bytes) 0) in
    let shift = 64 - size_of data_type * 8 in
    if is_signed_int data_type then zigzag_encode (sar (raw * 2 ^ shift % 2 ^ 64) shift) else raw

-- The `len` bytes that are written to `out`.
unfoldable pub map_from_u64 : DataType → ℕ → ℕ → List ℕ
unfolding zigzag_decode
map_from_u64 data_type value len =
    if is_signed_int data_type then low_bytes len (zigzag_decode value) else low_bytes len value

-- `64 - v.leading_zeros()`: `fuel` digits of `v` at most are looked at.
unfoldable pub bit_length : ℕ → ℕ → ℕ
bit_length zero v = 0
bit_length (suc fuel) v = let more = bit_length fuel (v / 2) in if v == 0 then 0 else suc more

-- The loop of `write_bits`: `value` into the bits from `p` on. A round writes a bit at least.
unfoldable pub write_loop : ℕ → List ℕ → ℕ → ℕ → ℕ → List ℕ
write_loop zero buf p remaining value = buf
write_loop (suc fuel) buf p remaining value =
    let byte = p / 8 in
    let bit = p % 8 in
    let step = min (8 - bit) remaining in
    let mask = (2 ^ step - 1) % 2 ^ 8 in
    let chunk = bit_and value mask % 2 ^ 8 * 2 ^ bit % 2 ^ 8 in
    let buf' = set buf byte (bit_or (get_or buf byte 0) chunk) in
    let more = write_loop fuel buf' (p + step) (remaining - step) (value / 2 ^ step) in
    if ltb 0 remaining then more else buf

unfoldable pub write_bits : List ℕ → ℕ → ℕ → ℕ → ℕ → List ℕ
unfolding write_loop
write_bits buf base_byte bit_pos width value =
    if width == 0 then buf else write_loop width buf (base_byte * 8 + bit_pos) width value

-- The loop of `read_bits`.
unfoldable pub read_loop : ℕ → List ℕ → ℕ → ℕ → ℕ → ℕ → ℕ
read_loop zero buf p width shifted value = value
read_loop (suc fuel) buf p width shifted value =
    let byte = p / 8 in
    let bit = p % 8 in
    let step = min (8 - bit) (width - shifted) in
    let chunk = bit_and (get_or buf byte 0 / 2 ^ bit) (2 ^ step - 1) in
    let value' = bit_or value (chunk * 2 ^ shifted % 2 ^ 64) in
    let more = read_loop fuel buf (p + step) width (shifted + step) value' in
    if ltb shifted width then more else value

unfoldable pub read_bits : List ℕ → ℕ → ℕ → ℕ
unfolding read_loop
read_bits buf bit_pos width = if width == 0 then 0 else read_loop width buf bit_pos width 0 0

-- The first loop of `encode`: the mapped values from row `i` on.
unfoldable pub map_values : DataType → List ℕ → ℕ → ℕ → List ℕ
unfolding map_to_u64
map_values data_type values zero i = []
map_values data_type values (suc left) i =
    let s = size_of data_type in
    map_to_u64 data_type (take s (drop (i * s) values)) ∷ map_values data_type values left (i + 1)

-- The greatest bit length among the mapped values.
unfoldable pub max_bits : List ℕ → ℕ → ℕ
unfolding bit_length
max_bits [] acc = acc
max_bits (v ∷ vs) acc = max_bits vs (max acc (bit_length 64 v))

-- The second loop of `encode`, at row `i`.
unfoldable pub write_values : List ℕ → ℕ → ℕ → List ℕ → List ℕ
unfolding write_bits
write_values [] i bit_width out = out
write_values (v ∷ vs) i bit_width out =
    write_values vs (i + 1) bit_width (write_bits out 1 (i * bit_width) bit_width v)

-- The division by the width panics on `Utf8`.
unfoldable pub encode : DataType → List ℕ → Codec (List ℕ)
unfolding map_values max_bits write_values
encode data_type values =
    let s = size_of data_type in
    let n = length values / s in
    let mapped = map_values data_type values n 0 in
    let bit_width = max_bits mapped 0 in
    let byte_len = (n * bit_width + 7) / 8 in
    if s == 0
    then panic
    else ok (write_values mapped 0 bit_width (bit_width ∷ replicate byte_len 0))

unfoldable pub decode_loop : DataType → List ℕ → ℕ → ℕ → ℕ → List ℕ
unfolding read_bits map_from_u64
decode_loop data_type body bit_width zero i = []
decode_loop data_type body bit_width (suc left) i =
    map_from_u64 data_type (read_bits body (i * bit_width) bit_width) (size_of data_type)
    ++ decode_loop data_type body bit_width left (i + 1)

-- `payload[0]` and `payload[1..]` of a payload that is not empty.
unfoldable pub decode : DataType → List ℕ → ℕ → Codec (List ℕ)
unfolding decode_loop
decode data_type payload rows = do
  guard (ltb 0 (length payload)) (truncated 1 0)
  let bit_width = get_or payload 0 0
  guard (leb bit_width 64) (corrupt "bit_width > 64")
  let byte_len = (rows * bit_width + 7) / 8
  guard (leb (1 + byte_len) (length payload)) (truncated (1 + byte_len) (length payload))
  ok (decode_loop data_type (drop 1 payload) bit_width rows 0)
