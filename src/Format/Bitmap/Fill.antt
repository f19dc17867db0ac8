-- ===== src/Format/Bitmap/Fill.antt =====
-- A filled range of bits.
use stkoe_data.Base.{
  ℕ, zero, suc, ◌+◌, ◌-◌, ◌*◌, ◌/◌, ◌%◌, ◌^◌, ◌≤◌, ◌<◌, ◌≡◌, refl, ap, ◌∙◌, bit_and, bit_or, List,
}
use stkoe_data.Base.{
  ◌⊎◌, length, get_or, set, Bool, true, false, ◌&&◌, ◌==◌, leb, ltb, if◌then◌else◌, arith,
  length-set,
}
use stkoe_data.Base.{
  bit, bit_at, bit_at-set, bit-bit_or, bit-bit_and, bit-le, bit-mod, bit-mul, bit_low_mask,
  bit_complement, bit_of_lt,
}
use stkoe_data.Format.Bitmap.Bytes.{mask_at, fill_byte, fill_bytes, fill_bits, fill_part, head_bits}

-- Is bit `n` one of the `len` bits from `off` on?
abbrev pub within : ℕ → ℕ → ℕ → Bool
within off len n = leb off n && ltb n (off + len)

abbrev pub as_bit : Bool → ℕ
as_bit valid = if valid then 1 else 0

pub bit-mask_at :
    (head p i : ℕ) → p + head ≤ 8 → i < 8 → bit i (mask_at head p) ≡ as_bit (within p head i)
bit-mask_at head p i h small = ground (
  arith,
  bit-mod 8 i ((2 ^ head - 1) * 2 ^ p % 2 ^ 16),
  bit-mod 16 i ((2 ^ head - 1) * 2 ^ p),
  bit-mul p i (2 ^ head - 1),
  bit_low_mask head (i - p),
)

pub mask_at-lt : (head p : ℕ) → mask_at head p < 2 ^ 8
mask_at-lt head p = omega arith

module _ (byte head p i : ℕ) (h : p + head ≤ 8) (small : i < 8) where
  bit-set_mask : bit i (bit_or byte (mask_at head p)) ≡ (if within p head i then 1 else bit i byte)
  bit-set_mask =
      ground
        (arith, bit-bit_or i byte (mask_at head p), bit-mask_at head p i h small, bit-le i byte)

  bit-clear_mask :
      bit i (bit_and byte (255 - mask_at head p)) ≡ (if within p head i then 0 else bit i byte)
  bit-clear_mask = ground (
    arith,
    bit-bit_and i byte (255 - mask_at head p),
    bit_complement 8 i (mask_at head p) (mask_at-lt head p),
    bit-mask_at head p i h small,
    bit-le i byte,
  )

shift_byte :
    (dst : List ℕ) (d head p : ℕ) (valid : Bool) (n : ℕ)
    → p + head ≤ 8
    → d < length dst
    → (byte : ℕ)
    → bit (n % 8) byte
      ≡ (if within p head (n % 8) then as_bit valid else bit (n % 8) (get_or dst d 0))
    → (if n / 8 == d then bit (n % 8) byte else bit_at dst n)
      ≡ (if within (d * 8 + p) head n then as_bit valid else bit_at dst n)
unfolding bit_at
shift_byte dst d head p valid n h small byte e =
    ground (arith, e, ap (λ k. get_or dst k 0) (let q : n / 8 ≡ n / 8 = refl in q))

pub fill_byte-bits :
    (dst : List ℕ) (d head p : ℕ) (valid : Bool) (n : ℕ)
    → p + head ≤ 8
    → d < length dst
    → bit_at (fill_byte dst d (mask_at head p) valid) n
      ≡ (if within (d * 8 + p) head n then as_bit valid else bit_at dst n)
unfolding fill_byte
fill_byte-bits dst d head p true n h small =
    bit_at-set dst d _ n small
    ∙ shift_byte dst d head p true n h small _ (bit-set_mask _ head p (n % 8) h (omega arith))
fill_byte-bits dst d head p false n h small =
    bit_at-set dst d _ n small
    ∙ shift_byte dst d head p false n h small _ (bit-clear_mask _ head p (n % 8) h (omega arith))

pub length-fill_byte :
    (dst : List ℕ) (d mask : ℕ) (valid : Bool) → length (fill_byte dst d mask valid) ≡ length dst
unfolding fill_byte
length-fill_byte dst d mask valid = length-set dst d _

pub length-fill_bytes :
    (k : ℕ) (dst : List ℕ) (d byte : ℕ) → length (fill_bytes k dst d byte) ≡ length dst
unfolding fill_bytes
length-fill_bytes zero dst d byte = refl
length-fill_bytes (suc k) dst d byte =
    length-fill_bytes k (set dst d byte) (d + 1) byte ∙ length-set dst d byte

bit-full : (i : ℕ) (valid : Bool) → i < 8 → bit i (if valid then 255 else 0) ≡ as_bit valid
bit-full i true h = ground (arith, bit_low_mask 8 i)
bit-full i false h = bit_of_lt 0 i 0 (omega arith) (omega arith)

pub fill_bytes-bits :
    (k : ℕ) (dst : List ℕ) (d : ℕ) (valid : Bool) (n : ℕ)
    → d + k ≤ length dst
    → bit_at (fill_bytes k dst d (if valid then 255 else 0)) n
      ≡ (if within (d * 8) (k * 8) n then as_bit valid else bit_at dst n)
unfolding fill_bytes
fill_bytes-bits zero dst d valid n h = ground arith
fill_bytes-bits (suc k) dst d valid n h =
    let byte : ℕ = if valid then 255 else 0 in
    ground (
      arith,
      fill_bytes-bits k (set dst d byte) (d + 1) valid n (omega (arith, length-set dst d byte)),
      bit_at-set dst d byte n (omega arith),
      bit-full (n % 8) valid (omega arith),
    )

-- The head: no bits, or those up to the next byte, or the whole range.
pub record IsHead (bit_off len head : ℕ) : Type 0 where
  pub fits : bit_off % 8 + head ≤ 8
  pub inside : head ≤ len
  pub aligned : ((bit_off + head) % 8 ≡ 0) ⊎ (head ≡ len)

pub head_bits-IsHead : (bit_off len : ℕ) → IsHead bit_off len (head_bits bit_off len)
unfolding head_bits
head_bits-IsHead bit_off len = record {
  fits = ground arith;
  inside = ground arith;
  aligned = ground arith;
}

fill_part-bits :
    (dst : List ℕ) (d k p : ℕ) (valid : Bool) (n : ℕ)
    → p + k ≤ 8
    → d * 8 + p + k ≤ length dst * 8
    → bit_at (fill_part dst d k p valid) n
      ≡ (if within (d * 8 + p) k n then as_bit valid else bit_at dst n)
unfolding fill_part
fill_part-bits dst d k p valid n h small = ground (arith, fill_byte-bits dst d k p valid n h)

pub length-fill_part :
    (dst : List ℕ) (d k p : ℕ) (valid : Bool) → length (fill_part dst d k p valid) ≡ length dst
unfolding fill_part
length-fill_part dst d k p valid = ground (arith, length-fill_byte dst d (mask_at k p) valid)

-- Filling sets the bits of the range to the given value and leaves all other bits alone.
-- The condition: the range lies in the buffer.
pub fill_bits-bits :
    (dst : List ℕ) (bit_off len : ℕ) (valid : Bool) (n : ℕ)
    → bit_off + len ≤ length dst * 8
    → bit_at (fill_bits dst bit_off len valid) n
      ≡ (if within bit_off len n then as_bit valid else bit_at dst n)
unfolding fill_bits
fill_bits-bits dst bit_off len valid n h =
    let head : ℕ = head_bits bit_off len in
    let is_head = head_bits-IsHead bit_off len in
    let body : ℕ = (len - head) / 8 in
    let tail' : ℕ = (len - head) % 8 in
    let byte : ℕ = if valid then 255 else 0 in
    let dst1 : List ℕ = fill_part dst (bit_off / 8) head (bit_off % 8) valid in
    let dst2 : List ℕ = fill_bytes body dst1 ((bit_off + head) / 8) byte in
    let same1 = length-fill_part dst (bit_off / 8) head (bit_off % 8) valid in
    let same2 = length-fill_bytes body dst1 ((bit_off + head) / 8) byte in
    let fits = is_head.fits in
    let inside = is_head.inside in
    let aligned = is_head.aligned in
    let first = fill_part-bits dst (bit_off / 8) head (bit_off % 8) valid n fits (omega arith) in
    let middle = fill_bytes-bits body dst1 ((bit_off + head) / 8) valid n (omega arith) in
    let last =
      fill_part-bits dst2 ((bit_off + head + body * 8) / 8) tail' 0 valid n (omega arith)
        (omega arith) in
    last ∙ ground (arith, first, middle)
