-- ===== src/Format/Bitmap/Bytes.antt =====
-- The byte loops of crates/splayed-format/src/bitmap.rs, on ranges that lie in the buffers.
use stkoe_data.Base.{
  ℕ, zero, suc, ◌+◌, ◌-◌, ◌*◌, ◌/◌, ◌%◌, ◌^◌, min, bit_and, bit_or, List, [], ◌∷◌,
}
use stkoe_data.Base.{length, take, drop, get_or, set, from_le, Bool, ◌==◌, leb, ltb, if◌then◌else◌}

-- `count_ones` of a word of `k` bits.
unfoldable pub popcount : ℕ → ℕ → ℕ
popcount zero a = 0
popcount (suc k) a = a % 2 + popcount k (a / 2)

-- The whole words of `chunks_exact(8)`, `n` of them.
unfoldable pub count_words : ℕ → List ℕ → ℕ
unfolding popcount from_le
count_words zero body = 0
count_words (suc n) body = popcount 64 (from_le (take 8 body)) + count_words n (drop 8 body)

unfoldable pub count_bytes : List ℕ → ℕ
unfolding popcount
count_bytes [] = 0
count_bytes (b ∷ body) = popcount 8 b + count_bytes body

-- `(((1u16 << head) - 1) << p) as u8`
abbrev pub mask_at : ℕ → ℕ → ℕ
mask_at head p = (2 ^ head - 1) * 2 ^ p % 2 ^ 16 % 2 ^ 8

-- `bitmap_count_ones` behind its checks.
unfoldable pub count_bits : List ℕ → ℕ → ℕ → ℕ
unfolding popcount count_words count_bytes
count_bits bits bit_off len =
    let head = min ((8 - bit_off % 8) % 8) len in
    let first =
      if ltb 0 head
      then popcount 8 (bit_and (get_or bits (bit_off / 8) 0) (mask_at head (bit_off % 8)))
      else 0 in
    let pos = bit_off + head in
    let rest = len - head in
    let body = take (rest / 8) (drop (pos / 8) bits) in
    let words = length body / 8 in
    let middle = count_words words body + count_bytes (drop (8 * words) body) in
    let pos' = pos + rest / 8 * 8 in
    let last =
      if ltb 0 (rest % 8)
      then popcount 8 (bit_and (get_or bits (pos' / 8) 0) (mask_at (rest % 8) 0))
      else 0 in
    first + middle + last

-- `*d |= mask` or `*d &= !mask`
unfoldable pub fill_byte : List ℕ → ℕ → ℕ → Bool → List ℕ
fill_byte dst d mask valid =
    let byte = get_or dst d 0 in
    set dst d (if valid then bit_or byte mask else bit_and byte (255 - mask))

-- `dst[d..d + n].fill(byte)`
unfoldable pub fill_bytes : ℕ → List ℕ → ℕ → ℕ → List ℕ
fill_bytes zero dst d byte = dst
fill_bytes (suc n) dst d byte = fill_bytes n (set dst d byte) (d + 1) byte

-- The bits up to the next byte, as `fill` and `copy` count them.
unfoldable pub head_bits : ℕ → ℕ → ℕ
head_bits bit_off len = if bit_off % 8 == 0 then 0 else min (8 - bit_off % 8) len

-- The `k` bits from bit `p` of byte `d` on.
unfoldable pub fill_part : List ℕ → ℕ → ℕ → ℕ → Bool → List ℕ
unfolding fill_byte
fill_part dst d k p valid = if ltb 0 k then fill_byte dst d (mask_at k p) valid else dst

-- `bitmap_fill_bits` behind its checks.
unfoldable pub fill_bits : List ℕ → ℕ → ℕ → Bool → List ℕ
unfolding head_bits fill_part fill_bytes
fill_bits dst bit_off len valid =
    let head = head_bits bit_off len in
    let body_bit = bit_off + head in
    let body_bytes = (len - head) / 8 in
    let dst1 = fill_part dst (bit_off / 8) head (bit_off % 8) valid in
    let dst2 = fill_bytes body_bytes dst1 (body_bit / 8) (if valid then 255 else 0) in
    fill_part dst2 ((body_bit + body_bytes * 8) / 8) ((len - head) % 8) 0 valid

unfoldable pub read_shifted_byte : List ℕ → ℕ → ℕ → ℕ
read_shifted_byte src bit n =
    let p = bit % 8 in
    let lo = get_or src (bit / 8) 0 / 2 ^ p in
    if leb (p + n) 8 then lo else bit_or lo (get_or src (bit / 8 + 1) 0 * 2 ^ (8 - p) % 2 ^ 8)

-- `*d = (*d & !mask) | (sb & mask)`
unfoldable pub merge_byte : List ℕ → ℕ → ℕ → ℕ → List ℕ
merge_byte dst d mask sb =
    set dst d (bit_or (bit_and (get_or dst d 0) (255 - mask)) (bit_and sb mask))

-- The whole bytes, in phase or shifted by `sh`.
unfoldable pub copy_bytes : ℕ → List ℕ → ℕ → List ℕ → ℕ → List ℕ
copy_bytes zero dst d src src_bit = dst
copy_bytes (suc n) dst d src src_bit =
    let sh = src_bit % 8 in
    let byte =
      if sh == 0
      then get_or src (src_bit / 8) 0
      else bit_or (get_or src (src_bit / 8) 0 / 2 ^ sh)
          (get_or src (src_bit / 8 + 1) 0 * 2 ^ (8 - sh) % 2 ^ 8) in
    copy_bytes n (set dst d byte) (d + 1) src (src_bit + 8)

-- The `k` bits from bit `p` of byte `d` on, read from bit `src_bit` on.
unfoldable pub copy_part : List ℕ → ℕ → ℕ → ℕ → List ℕ → ℕ → List ℕ
unfolding merge_byte read_shifted_byte
copy_part dst d k p src src_bit =
    if ltb 0 k
    then merge_byte dst d (mask_at k p) (read_shifted_byte src src_bit k * 2 ^ p % 2 ^ 8)
    else dst

-- `bitmap_copy_bits` behind its checks, which keep every byte that it reads in the source. Outside
-- of them a byte is 0 here, where the code panics.
unfoldable pub copy_bits : List ℕ → ℕ → List ℕ → ℕ → ℕ → List ℕ
unfolding head_bits copy_part copy_bytes
copy_bits dst dst_off src src_off len =
    let head = head_bits dst_off len in
    let body_bit = dst_off + head in
    let body_bytes = (len - head) / 8 in
    let dst1 = copy_part dst (dst_off / 8) head (dst_off % 8) src src_off in
    let dst2 = copy_bytes body_bytes dst1 (body_bit / 8) src (src_off + head) in
    copy_part dst2 ((body_bit + body_bytes * 8) / 8) ((len - head) % 8) 0 src
      (src_off + head + body_bytes * 8)
