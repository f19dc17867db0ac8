-- ===== src/Format/Bitmap/Copy.antt =====
-- A copied range of bits.
use stkoe_data.Base.{
  ℕ, zero, suc, ◌+◌, ◌-◌, ◌*◌, ◌/◌, ◌%◌, ◌^◌, ◌≤◌, ◌<◌, ◌≡◌, refl, ap, ap₂, sym, ◌∙◌, bit_and,
  bit_or, List, [], ◌∷◌,
}
use stkoe_data.Base.{
  ◌⊎◌, length, get_or, set, true, false, ◌==◌, leb, ltb, if◌then◌else◌, arith, Bool-cases, inl, inr,
  length-set, IsBytes,
}
use stkoe_data.Base.{
  bit, bit_at, bit_at-set, bit-bit_or, bit-bit_and, bit-le, bit-mod, bit-mul, bit-div,
  bit_complement, bit_of_lt,
}
use stkoe_data.Format.Bitmap.Bytes.{
  mask_at, merge_byte, read_shifted_byte, copy_bytes, copy_bits, copy_part, head_bits,
}
use stkoe_data.Format.Bitmap.Fill.{within, bit-mask_at, mask_at-lt, head_bits-IsHead}

pub get_or-lt : (bytes : List ℕ) (i : ℕ) → IsBytes bytes → get_or bytes i 0 < 256
get_or-lt [] i h = omega arith
get_or-lt (b ∷ bytes) zero h = h.0
get_or-lt (b ∷ bytes) (suc i) h = get_or-lt bytes i h.1

bit_at_low :
    (src : List ℕ) (b i : ℕ)
    → b % 8 + i < 8
    → bit_at src (b + i) ≡ bit (b % 8 + i) (get_or src (b / 8) 0)
unfolding bit_at
bit_at_low src b i h =
    ap₂ (λ (k : ℕ) (j : ℕ). bit k (get_or src j 0))
      (let e : (b + i) % 8 ≡ b % 8 + i = omega arith in e)
      (let e : (b + i) / 8 ≡ b / 8 = omega arith in e)

bit_at_high :
    (src : List ℕ) (b i : ℕ)
    → 8 ≤ b % 8 + i
    → i < 8
    → bit_at src (b + i) ≡ bit (b % 8 + i - 8) (get_or src (b / 8 + 1) 0)
unfolding bit_at
bit_at_high src b i h small =
    ap₂ (λ (k : ℕ) (j : ℕ). bit k (get_or src j 0))
      (let e : (b + i) % 8 ≡ b % 8 + i - 8 = omega arith in e)
      (let e : (b + i) / 8 ≡ b / 8 + 1 = omega arith in e)

module _ (src : List ℕ) (bytes : IsBytes src) where
  -- The byte that starts at bit `b`, from two bytes.
  shifted :
      (b i : ℕ)
      → i < 8
      → bit i (
          bit_or
            (get_or src (b / 8) 0 / 2 ^ (b % 8))
            (get_or src (b / 8 + 1) 0 * 2 ^ (8 - b % 8) % 2 ^ 8))
        ≡ bit_at src (b + i)
  shifted b i h =
      let p : ℕ = b % 8 in
      let lo : ℕ = get_or src (b / 8) 0 in
      let hi : ℕ = get_or src (b / 8 + 1) 0 in
      let same : ltb i (8 - p) ≡ false → i - (8 - p) ≡ p + i - 8 = λ q. ground arith in
      ground (
        arith,
        bit-bit_or i (lo / 2 ^ p) (hi * 2 ^ (8 - p) % 2 ^ 8),
        bit-div p i lo,
        bit-mod 8 i (hi * 2 ^ (8 - p)),
        bit-mul (8 - p) i hi,
        bit_of_lt 8 (p + i) lo (get_or-lt src (b / 8) bytes),
        bit-le (p + i) lo,
        bit-le (i - (8 - p)) hi,
        bit_at_low src b i,
        bit_at_high src b i,
        λ (q : ltb i (8 - p) ≡ false). ap (λ k. bit k hi) (same q),
      )

  read_shifted_byte-bits :
      (b n i : ℕ) → n ≤ 8 → i < n → bit i (read_shifted_byte src b n) ≡ bit_at src (b + i)
  unfolding read_shifted_byte
  read_shifted_byte-bits b n i h small = elim (Bool-cases (leb (b % 8 + n) 8)) [
    | inl q ↦
        rw q (bit-div (b % 8) i (get_or src (b / 8) 0) ∙ sym (bit_at_low src b i (ground arith)))
    | inr q ↦ rw q (shifted b i (omega arith))
  ]

bit-merge :
    (byte sb k p i : ℕ)
    → p + k ≤ 8
    → i < 8
    → bit i (bit_or (bit_and byte (255 - mask_at k p)) (bit_and sb (mask_at k p)))
      ≡ (if within p k i then bit i sb else bit i byte)
bit-merge byte sb k p i h small = ground (
  arith,
  bit-bit_or i (bit_and byte (255 - mask_at k p)) (bit_and sb (mask_at k p)),
  bit-bit_and i byte (255 - mask_at k p),
  bit-bit_and i sb (mask_at k p),
  bit_complement 8 i (mask_at k p) (mask_at-lt k p),
  bit-mask_at k p i h small,
  bit-le i byte,
  bit-le i sb,
)

-- A head, whole bytes and a tail make up a range.
three_parts :
    (off len head body tail' start m t n x x1 x2 x3 f0 f1 f2 f3 : ℕ)
    → head ≤ len
    → start ≡ off
    → len ≡ head + body * 8 + tail'
    → ((off + head) % 8 ≡ 0) ⊎ (head ≡ len)
    → f1 ≡ (if within start head n then x1 else f0)
    → f2 ≡ (if within m (body * 8) n then x2 else f1)
    → f3 ≡ (if within t tail' n then x3 else f2)
    → (within start head n ≡ true → x1 ≡ x)
    → (within m (body * 8) n ≡ true → x2 ≡ x)
    → (within t tail' n ≡ true → x3 ≡ x)
    → (0 < body → m ≡ off + head)
    → (0 < tail' → t ≡ off + head + body * 8)
    → f3 ≡ (if within off len n then x else f0)
three_parts off len head body tail' start m t n x x1 x2 x3 f0 f1 f2 f3 inside e1 e2 aligned h1 h2 h3
      g1 g2 g3 k1 k2 =
    ground arith

module _ (src : List ℕ) (bytes : IsBytes src) where
  copied :
      (b k p n d : ℕ)
      → p + k ≤ 8
      → n / 8 ≡ d
      → within p k (n % 8) ≡ true
      → bit (n % 8) (read_shifted_byte src b k * 2 ^ p % 2 ^ 8) ≡ bit_at src (b + (n - (d * 8 + p)))
  copied b k p n d h e q =
      let i : ℕ = n % 8 in
      let low : p ≤ i = ground arith in
      let high : i < p + k = ground arith in
      bit-mod 8 i (read_shifted_byte src b k * 2 ^ p)
      ∙ (ground (arith, bit-mul p i (read_shifted_byte src b k))
          ∙ (read_shifted_byte-bits src bytes b k (i - p) (omega arith) (omega arith)
              ∙ ap (λ j. bit_at src (b + j)) (omega arith)))

  copy_part-bits :
      (dst : List ℕ) (d k p b n : ℕ)
      → p + k ≤ 8
      → d * 8 + p + k ≤ length dst * 8
      → bit_at (copy_part dst d k p src b) n
        ≡ (if within (d * 8 + p) k n then bit_at src (b + (n - (d * 8 + p))) else bit_at dst n)
  unfolding copy_part merge_byte
  copy_part-bits dst d k p b n h small =
      let sb : ℕ = read_shifted_byte src b k * 2 ^ p % 2 ^ 8 in
      let byte : ℕ = get_or dst d 0 in
      ground (
        arith,
        bit_at-set dst d (bit_or (bit_and byte (255 - mask_at k p)) (bit_and sb (mask_at k p))) n,
        bit-merge byte sb k p (n % 8) h (omega arith),
        copied b k p n d h,
        kept dst d n,
      )
    where
      kept : (dst : List ℕ) (d n : ℕ) → n / 8 ≡ d → bit (n % 8) (get_or dst d 0) ≡ bit_at dst n
      kept dst d n e = unfold bit_at in ap (λ j. bit (n % 8) (get_or dst j 0)) (sym e)

  pub length-copy_part :
      (dst : List ℕ) (d k p b : ℕ) → length (copy_part dst d k p src b) ≡ length dst
  unfolding copy_part merge_byte
  length-copy_part dst d k p b = elim (Bool-cases (ltb 0 k)) [
    | inl q ↦ rw q (length-set dst d _)
    | inr q ↦ rw q
  ]

  pub length-copy_bytes :
      (k : ℕ) (dst : List ℕ) (d b : ℕ) → length (copy_bytes k dst d src b) ≡ length dst
  unfolding copy_bytes
  length-copy_bytes zero dst d b = refl
  length-copy_bytes (suc k) dst d b = length-copy_bytes k _ (d + 1) (b + 8) ∙ length-set dst d _

  abbrev copied_byte : ℕ → ℕ
  copied_byte b =
      let sh = b % 8 in
      if sh == 0
      then get_or src (b / 8) 0
      else bit_or (get_or src (b / 8) 0 / 2 ^ sh) (get_or src (b / 8 + 1) 0 * 2 ^ (8 - sh) % 2 ^ 8)

  copied_byte-bits : (b i : ℕ) → i < 8 → bit i (copied_byte b) ≡ bit_at src (b + i)
  copied_byte-bits b i h = elim (Bool-cases (b % 8 == 0)) [
    | inl q ↦ rw q (
        ap (λ j. bit j (get_or src (b / 8) 0)) (let e : i ≡ b % 8 + i = ground arith in e)
        ∙ sym (bit_at_low src b i (ground arith)))
    | inr q ↦ rw q (shifted src bytes b i h)
  ]

  copy_bytes-bits :
      (k : ℕ) (dst : List ℕ) (d b n : ℕ)
      → d + k ≤ length dst
      → bit_at (copy_bytes k dst d src b) n
        ≡ (if within (d * 8) (k * 8) n then bit_at src (b + (n - d * 8)) else bit_at dst n)
  unfolding copy_bytes
  copy_bytes-bits zero dst d b n h = ground arith
  copy_bytes-bits (suc k) dst d b n h =
      let byte : ℕ = copied_byte b in
      ground (
        arith,
        copy_bytes-bits k (set dst d byte) (d + 1) (b + 8) n (omega (arith, length-set dst d byte)),
        bit_at-set dst d byte n (omega arith),
        copied_byte-bits b (n % 8) (omega arith),
        same n d b,
        later n d b,
      )
    where
      same : (n d b : ℕ) → n / 8 ≡ d → bit_at src (b + n % 8) ≡ bit_at src (b + (n - d * 8))
      same n d b e = ap (λ j. bit_at src (b + j)) (omega arith)

      later :
          (n d b : ℕ)
          → d < n / 8
          → bit_at src (b + 8 + (n - (d + 1) * 8)) ≡ bit_at src (b + (n - d * 8))
      later n d b e = ap (bit_at src) (omega arith)

  -- Copying `len` bits puts bit `src_off + i` of the source at bit `dst_off + i` of the destination
  -- and leaves all other bits of the destination alone, whatever the two phases.
  -- The conditions: the source holds bytes, and the range lies in the destination.
  pub copy_bits-bits :
      (dst : List ℕ) (dst_off src_off len n : ℕ)
      → dst_off + len ≤ length dst * 8
      → bit_at (copy_bits dst dst_off src src_off len) n
        ≡ (if within dst_off len n then bit_at src (src_off + (n - dst_off)) else bit_at dst n)
  unfolding copy_bits
  copy_bits-bits dst dst_off src_off len n h =
      let head : ℕ = head_bits dst_off len in
      let is_head = head_bits-IsHead dst_off len in
      let body : ℕ = (len - head) / 8 in
      let tail' : ℕ = (len - head) % 8 in
      let dst1 : List ℕ = copy_part dst (dst_off / 8) head (dst_off % 8) src src_off in
      let dst2 : List ℕ = copy_bytes body dst1 ((dst_off + head) / 8) src (src_off + head) in
      let same1 = length-copy_part dst (dst_off / 8) head (dst_off % 8) src_off in
      let same2 = length-copy_bytes body dst1 ((dst_off + head) / 8) (src_off + head) in
      let fits = is_head.fits in
      let inside = is_head.inside in
      let aligned = is_head.aligned in
      let first =
        copy_part-bits dst (dst_off / 8) head (dst_off % 8) src_off n fits (omega arith) in
      let middle =
        copy_bytes-bits body dst1 ((dst_off + head) / 8) (src_off + head) n (omega arith) in
      let last =
        copy_part-bits dst2 ((dst_off + head + body * 8) / 8) tail' 0 (src_off + head + body * 8) n
          (omega arith) (omega arith) in
      three_parts dst_off len head body tail' (dst_off / 8 * 8 + dst_off % 8)
        ((dst_off + head) / 8 * 8) ((dst_off + head + body * 8) / 8 * 8 + 0) n
        (bit_at src (src_off + (n - dst_off))) _ _ _ _ _ _ _ inside (omega arith) (omega arith)
        aligned first middle last
        (λ q.
          moved src_off dst_off n (dst_off / 8 * 8 + dst_off % 8) 0 src_off (omega arith)
            (omega arith) (ground arith))
        (λ q.
          moved src_off dst_off n ((dst_off + head) / 8 * 8) head (src_off + head) refl
            (ground arith) (ground arith))
        (λ q.
          moved src_off dst_off n ((dst_off + head + body * 8) / 8 * 8 + 0) (head + body * 8)
            (src_off + head + body * 8) (omega arith) (ground arith) (ground arith))
        (λ q. ground arith) (λ q. ground arith)
    where
      moved :
          (src_off dst_off n at k from : ℕ)
          → from ≡ src_off + k
          → at ≡ dst_off + k
          → at ≤ n
          → bit_at src (from + (n - at)) ≡ bit_at src (src_off + (n - dst_off))
      moved src_off dst_off n at k from e0 e h = ap (bit_at src) (omega arith)
