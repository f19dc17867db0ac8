-- ===== src/Format/Bitmap/Shape.antt =====
-- Lengths and bytes of changed buffers, and the operations where their checks pass.
use stkoe_data.Base.{
  ℕ, zero, suc, ◌+◌, ◌-◌, ◌*◌, ◌/◌, ◌%◌, ◌^◌, ◌≤◌, ◌<◌, ◌≡◌, refl, ◌∙◌, bit_and, bit_or, List, [],
  ◌∷◌, length, replicate, get_or, set, Bool, true, false, ok, ◌==◌, ltb, if◌then◌else◌, arith,
  Bool-cases, inl, inr, IsBytes, le→leb, bit_or-lt, bit_and-le,
}
use native.Mathlib.Nat.{div-le_self}
use stkoe_data.Format.Bitmap.{bitmap_count_ones, bitmap_fill_bits, bitmap_copy_bits}
use stkoe_data.Format.Bitmap.Bytes.{
  mask_at, merge_byte, copy_bytes, copy_bits, copy_part, head_bits, count_bits, fill_bits,
  fill_part, fill_bytes, fill_byte, read_shifted_byte,
}
use stkoe_data.Format.Bitmap.Fill.{length-fill_part, length-fill_bytes}
use stkoe_data.Format.Bitmap.Copy.{get_or-lt, length-copy_part, length-copy_bytes}

pub length-copy_bits :
    (dst : List ℕ) (dst_off : ℕ) (src : List ℕ) (src_off len : ℕ)
    → IsBytes src
    → length (copy_bits dst dst_off src src_off len) ≡ length dst
unfolding copy_bits
length-copy_bits dst dst_off src src_off len bytes =
    let head : ℕ = head_bits dst_off len in
    length-copy_part src bytes _ ((dst_off + head + (len - head) / 8 * 8) / 8) ((len - head) % 8) 0
      (src_off + head + (len - head) / 8 * 8)
    ∙ (length-copy_bytes src bytes ((len - head) / 8) _ ((dst_off + head) / 8) (src_off + head)
        ∙ length-copy_part src bytes dst (dst_off / 8) head (dst_off % 8) src_off)

pub length-fill_bits :
    (dst : List ℕ) (off len : ℕ) (valid : Bool) → length (fill_bits dst off len valid) ≡ length dst
unfolding fill_bits
length-fill_bits dst off len valid =
    let head : ℕ = head_bits off len in
    length-fill_part _ ((off + head + (len - head) / 8 * 8) / 8) ((len - head) % 8) 0 valid
    ∙ (length-fill_bytes ((len - head) / 8) _ ((off + head) / 8) (if valid then 255 else 0)
        ∙ length-fill_part dst (off / 8) head (off % 8) valid)

pub set-IsBytes : (xs : List ℕ) (i v : ℕ) → IsBytes xs → v < 256 → IsBytes (set xs i v)
set-IsBytes [] i v h k = tt
set-IsBytes (x ∷ xs) zero v h k = (k, h.1)
set-IsBytes (x ∷ xs) (suc i) v h k = (h.0, set-IsBytes xs i v h.1 k)

pub replicate-IsBytes : (n b : ℕ) → b < 256 → IsBytes (replicate n b)
replicate-IsBytes zero b h = tt
replicate-IsBytes (suc n) b h = (h, replicate-IsBytes n b h)

bit_or-byte : (a b : ℕ) → a < 256 → b < 256 → bit_or a b < 256
bit_or-byte a b h k = bit_or-lt 8 a b h k

merged-byte :
    (byte sb m : ℕ)
    → byte < 256
    → sb < 256
    → m < 256
    → bit_or (bit_and byte (255 - m)) (bit_and sb m) < 256
merged-byte byte sb m h k l =
    bit_or-byte (bit_and byte (255 - m)) (bit_and sb m)
      (let e = bit_and-le 8 byte (255 - m) h in omega arith)
      (let e = bit_and-le 8 sb m k in omega arith)

div-byte : (a k : ℕ) → a < 256 → a / 2 ^ k < 256
div-byte a k h = let e = div-le_self a (2 ^ k) in omega arith

module _ (src : List ℕ) (bytes : IsBytes src) where
  copy_part-IsBytes :
      (dst : List ℕ) (d k p b : ℕ) → IsBytes dst → IsBytes (copy_part dst d k p src b)
  unfolding copy_part merge_byte
  copy_part-IsBytes dst d k p b h = elim (Bool-cases (ltb 0 k)) [
    | inr q ↦ rw q h
    | inl q ↦ rw q (
        set-IsBytes dst d _ h (
          merged-byte (get_or dst d 0) (read_shifted_byte src b k * 2 ^ p % 2 ^ 8) (mask_at k p)
            (get_or-lt dst d h) (omega arith) (omega arith)))
  ]

  copy_bytes-IsBytes :
      (k : ℕ) (dst : List ℕ) (d b : ℕ) → IsBytes dst → IsBytes (copy_bytes k dst d src b)
  unfolding copy_bytes
  copy_bytes-IsBytes zero dst d b h = h
  copy_bytes-IsBytes (suc k) dst d b h =
      copy_bytes-IsBytes k _ (d + 1) (b + 8) (set-IsBytes dst d _ h whole)
    where
      whole :
          (if b % 8 == 0
            then get_or src (b / 8) 0
            else bit_or
                (get_or src (b / 8) 0 / 2 ^ (b % 8))
                (get_or src (b / 8 + 1) 0 * 2 ^ (8 - b % 8) % 2 ^ 8))
          < 256
      whole = elim (Bool-cases (b % 8 == 0)) [
        | inl q ↦ rw q (get_or-lt src (b / 8) bytes)
        | inr q ↦ rw q (
            bit_or-byte (get_or src (b / 8) 0 / 2 ^ (b % 8))
              (get_or src (b / 8 + 1) 0 * 2 ^ (8 - b % 8) % 2 ^ 8)
              (div-byte (get_or src (b / 8) 0) (b % 8) (get_or-lt src (b / 8) bytes)) (omega arith))
      ]

  pub copy_bits-IsBytes :
      (dst : List ℕ) (dst_off src_off len : ℕ)
      → IsBytes dst
      → IsBytes (copy_bits dst dst_off src src_off len)
  unfolding copy_bits
  copy_bits-IsBytes dst dst_off src_off len h =
      let head : ℕ = head_bits dst_off len in
      let dst1 : List ℕ = copy_part dst (dst_off / 8) head (dst_off % 8) src src_off in
      let dst2 : List ℕ =
        copy_bytes ((len - head) / 8) dst1 ((dst_off + head) / 8) src (src_off + head) in
      copy_part-IsBytes dst2 ((dst_off + head + (len - head) / 8 * 8) / 8) ((len - head) % 8) 0
        (src_off + head + (len - head) / 8 * 8)
        (copy_bytes-IsBytes ((len - head) / 8) dst1 ((dst_off + head) / 8) (src_off + head)
          (copy_part-IsBytes dst (dst_off / 8) head (dst_off % 8) src_off h))

fill_part-IsBytes :
    (dst : List ℕ) (d k p : ℕ) (valid : Bool) → IsBytes dst → IsBytes (fill_part dst d k p valid)
unfolding fill_part fill_byte
fill_part-IsBytes dst d k p valid h = elim (Bool-cases (ltb 0 k)) [
  | inr q ↦ rw q h
  | inl q ↦ rw q (set-IsBytes dst d _ h (byte valid))
]
  where
    byte :
        (valid : Bool)
        → (if valid
            then bit_or (get_or dst d 0) (mask_at k p)
            else bit_and (get_or dst d 0) (255 - mask_at k p))
          < 256
    byte true = bit_or-byte (get_or dst d 0) (mask_at k p) (get_or-lt dst d h) (omega arith)
    byte false =
        let e = bit_and-le 8 (get_or dst d 0) (255 - mask_at k p) (get_or-lt dst d h) in
        let small = get_or-lt dst d h in omega arith

fill_bytes-IsBytes :
    (k : ℕ) (dst : List ℕ) (d b : ℕ) → b < 256 → IsBytes dst → IsBytes (fill_bytes k dst d b)
unfolding fill_bytes
fill_bytes-IsBytes zero dst d b s h = h
fill_bytes-IsBytes (suc k) dst d b s h =
    fill_bytes-IsBytes k _ (d + 1) b s (set-IsBytes dst d b h s)

pub fill_bits-IsBytes :
    (dst : List ℕ) (off len : ℕ) (valid : Bool)
    → IsBytes dst
    → IsBytes (fill_bits dst off len valid)
unfolding fill_bits
fill_bits-IsBytes dst off len valid h = fill_part-IsBytes _ _ _ 0 valid (
    fill_bytes-IsBytes ((len - head_bits off len) / 8) _ _ _ (small valid)
      (fill_part-IsBytes dst (off / 8) (head_bits off len) (off % 8) valid h))
  where
    small : (valid : Bool) → (if valid then 255 else 0) < 256
    small true = omega arith
    small false = omega arith

-- The checks of the operations pass on ranges in the buffers.
pub bitmap_copy_bits-ok :
    (dst : List ℕ) (dst_off : ℕ) (src : List ℕ) (src_off len : ℕ)
    → IsBytes src
    → 0 < len
    → dst_off + len ≤ length dst * 8
    → src_off + len ≤ length src * 8
    → bitmap_copy_bits dst dst_off src src_off len
      ≡ ok (
        copy_bits dst dst_off src src_off len,
        count_bits dst dst_off len,
        count_bits (copy_bits dst dst_off src src_off len) dst_off len,
      )
unfolding bitmap_copy_bits bitmap_count_ones
bitmap_copy_bits-ok dst dst_off src src_off len bytes pos h k =
    rw
      (
        (let e : (len == 0) ≡ false = ground arith in e),
        le→leb (dst_off + len) (length dst * 8) h,
        le→leb (src_off + len) (length src * 8) k,
        length-copy_bits dst dst_off src src_off len bytes,
        le→leb (dst_off + len) (length dst * 8) h,
      )
      refl

pub bitmap_fill_bits-ok :
    (dst : List ℕ) (off len : ℕ) (valid : Bool)
    → 0 < len
    → off + len ≤ length dst * 8
    → bitmap_fill_bits dst off len valid ≡ ok (fill_bits dst off len valid, count_bits dst off len)
unfolding bitmap_fill_bits bitmap_count_ones
bitmap_fill_bits-ok dst off len valid pos h =
    rw ((let e : (len == 0) ≡ false = ground arith in e), le→leb (off + len) (length dst * 8) h)
      refl
