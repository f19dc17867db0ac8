-- ===== src/Format/Bitmap/Count.antt =====
-- The count of ones is the sum of the bits.
use stkoe_data.Base.{
  ℕ, zero, suc, ◌+◌, ◌-◌, ◌*◌, ◌/◌, ◌%◌, ◌^◌, ◌≤◌, ◌<◌, ◌≡◌, refl, sym, ap, ap₂, ◌∙◌, min, bit_and,
  List, [], ◌∷◌,
}
use stkoe_data.Base.{
  length, take, drop, get_or, from_le, ltb, if◌then◌else◌, arith, IsBytes, length-take, length-drop,
  drop-drop, take-IsBytes, drop-IsBytes,
}
use stkoe_data.Base.{
  bit, bit_at, bit-mod, bit-bit_and, bit-le, bit-div, bit_at-cons, sum, sum-split, sum_ext,
  sum_zero,
}
use stkoe_data.Format.Bitmap.Bytes.{popcount, count_words, count_bytes, count_bits, mask_at}
use stkoe_data.Format.Bitmap.Fill.{within, bit-mask_at}

-- The ones among the `n` bits from `off` on.
abbrev pub ones_in : List ℕ → ℕ → ℕ → ℕ
ones_in bits off n = sum (bit_at bits) off n

abbrev digits_sum : ℕ → ℕ → ℕ → ℕ
digits_sum a off n = sum (λ i. bit i a) off n

bit-suc : (i a : ℕ) → bit (suc i) a ≡ bit i (a / 2)
unfolding bit
bit-suc i a = refl

popcount_sum : (k a : ℕ) → popcount k a ≡ digits_sum a 0 k
unfolding popcount sum
popcount_sum zero a = refl
popcount_sum (suc k) a =
    ap₂ (λ (x : ℕ) (y : ℕ). x + y) (let e : a % 2 ≡ bit 0 a = unfold bit in refl in e)
      (popcount_sum k (a / 2) ∙ sum_ext (λ i. bit i (a / 2)) (λ i. bit i a) 0 1 k (λ j p. shift j))
  where
    shift : (j : ℕ) → bit (0 + j) (a / 2) ≡ bit (1 + j) a
    shift j =
        ap (λ i. bit i (a / 2)) (let e : 0 + j ≡ j = omega arith in e)
        ∙ sym (bit-suc j a)
        ∙ ap (λ i. bit i a) (let e : suc j ≡ 1 + j = omega arith in e)

popcount_mask :
    (b head p : ℕ) → p + head ≤ 8 → popcount 8 (bit_and b (mask_at head p)) ≡ digits_sum b p head
popcount_mask b head p h =
    let f : ℕ → ℕ = λ i. bit i (bit_and b (mask_at head p)) in
    let at : (i : ℕ) → i < 8 → f i ≡ (if within p head i then bit i b else 0) = λ i q.
      ground (arith, bit-bit_and i b (mask_at head p), bit-mask_at head p i h q, bit-le i b) in
    popcount_sum 8 (bit_and b (mask_at head p))
    ∙ omega (
      arith,
      ap (sum f 0) (let e : 8 ≡ p + (head + (8 - p - head)) = omega arith in e),
      sum-split f 0 p (head + (8 - p - head)),
      ap (λ (o : ℕ). sum f o (head + (8 - p - head))) (let e : 0 + p ≡ p = omega arith in e),
      sum-split f p head (8 - p - head),
      sum_zero f 0 p (λ k q. ground (arith, at (0 + k) (omega arith))),
      sum_ext f (λ i. bit i b) p p head (λ k q. ground (arith, at (p + k) (omega arith))),
      sum_zero f (p + head) (8 - p - head) (λ k q. ground (arith, at (p + head + k) (omega arith))),
    )

byte_bits :
    (bits : List ℕ) (d p head : ℕ)
    → p + head ≤ 8
    → digits_sum (get_or bits d 0) p head ≡ ones_in bits (d * 8 + p) head
unfolding bit_at
byte_bits bits d p head h =
    sum_ext (λ i. bit i (get_or bits d 0)) (bit_at bits) p (d * 8 + p) head
      (λ k q.
        ap₂ (λ (i : ℕ) (j : ℕ). bit i (get_or bits j 0))
          (let e : p + k ≡ (d * 8 + p + k) % 8 = omega arith in e)
          (let e : d ≡ (d * 8 + p + k) / 8 = omega arith in e))

masked_bits :
    (bits : List ℕ) (d p head : ℕ)
    → p + head ≤ 8
    → (if ltb 0 head then popcount 8 (bit_and (get_or bits d 0) (mask_at head p)) else 0)
      ≡ ones_in bits (d * 8 + p) head
unfolding sum
masked_bits bits d p zero h = refl
masked_bits bits d p (suc head) h =
    ground (arith, popcount_mask (get_or bits d 0) (suc head) p h, byte_bits bits d p (suc head) h)

count_bytes_sum : (body : List ℕ) → count_bytes body ≡ ones_in body 0 (length body * 8)
unfolding count_bytes sum
count_bytes_sum [] = refl
count_bytes_sum (b ∷ body) = omega (
  arith,
  popcount_sum 8 b,
  byte_bits (b ∷ body) 0 0 8 (omega arith),
  ap (λ (o : ℕ). ones_in (b ∷ body) o 8) (let e : 0 * 8 + 0 ≡ 0 = omega arith in e),
  ap (ones_in (b ∷ body) 0)
      (let e : suc (length body) * 8 ≡ 8 + length body * 8 = omega arith in e),
  sum-split (bit_at (b ∷ body)) 0 8 (length body * 8),
  sum_ext (bit_at (b ∷ body)) (bit_at body) (0 + 8) 0 (length body * 8) (λ k q.
      ap (bit_at (b ∷ body)) (let e : 0 + 8 + k ≡ 8 + k = omega arith in e)
      ∙ (bit_at-cons b body k ∙ ap (bit_at body) (let e : k ≡ 0 + k = omega arith in e))),
  count_bytes_sum body,
)

low_digits : (b x : ℕ) → b < 256 → digits_sum (b + 256 * x) 0 8 ≡ digits_sum b 0 8
low_digits b x h =
    sum_ext (λ i. bit i (b + 256 * x)) (λ i. bit i b) 0 0 8
      (λ k q. ground (
        arith,
        bit-mod 8 (0 + k) (b + 256 * x),
        ap (bit (0 + k)) (let e : (b + 256 * x) % 2 ^ 8 ≡ b = omega arith in e),
      ))

high_digits : (b x n : ℕ) → b < 256 → digits_sum (b + 256 * x) 8 n ≡ digits_sum x 0 n
high_digits b x n h =
    sum_ext (λ i. bit i (b + 256 * x)) (λ i. bit i x) 8 0 n
      (λ k q.
        sym (bit-div 8 k (b + 256 * x))
        ∙ ap₂ bit (let e : k ≡ 0 + k = omega arith in e)
            (let e : (b + 256 * x) / 2 ^ 8 ≡ x = omega arith in e))

count_bytes-from_le :
    (bs : List ℕ) → IsBytes bs → digits_sum (from_le bs) 0 (length bs * 8) ≡ count_bytes bs
unfolding count_bytes from_le sum
count_bytes-from_le [] h = refl
count_bytes-from_le (b ∷ bs) h = omega (
  arith,
  ap (digits_sum (b + 256 * from_le bs) 0)
      (let e : suc (length bs) * 8 ≡ 8 + length bs * 8 = omega arith in e),
  sum-split (λ i. bit i (b + 256 * from_le bs)) 0 8 (length bs * 8),
  ap (λ (o : ℕ). digits_sum (b + 256 * from_le bs) o (length bs * 8))
      (let e : 0 + 8 ≡ 8 = omega arith in e),
  low_digits b (from_le bs) h.0,
  high_digits b (from_le bs) (length bs * 8) h.0,
  popcount_sum 8 b,
  count_bytes-from_le bs h.1,
)

count_bytes-split :
    (n : ℕ) (body : List ℕ)
    → count_bytes (take n body) + count_bytes (drop n body) ≡ count_bytes body
unfolding count_bytes
count_bytes-split zero body = omega arith
count_bytes-split (suc n) [] = refl
count_bytes-split (suc n) (b ∷ body) = omega (arith, count_bytes-split n body)

count_words_bytes :
    (n : ℕ) (body : List ℕ)
    → IsBytes body
    → 8 * n ≤ length body
    → count_words n body + count_bytes (drop (8 * n) body) ≡ count_bytes body
unfolding count_words
count_words_bytes zero body bytes h =
    ap (λ k. 0 + count_bytes (drop k body)) (let e : 8 * 0 ≡ 0 = omega arith in e) ∙ omega arith
count_words_bytes (suc n) body bytes h =
    let long : length (take 8 body) ≡ 8 = omega (arith, length-take 8 body) in
    omega (
      arith,
      popcount_sum 64 (from_le (take 8 body)),
      ap (digits_sum (from_le (take 8 body)) 0)
          (let e : 64 ≡ length (take 8 body) * 8 = omega (arith, long) in e),
      count_bytes-from_le (take 8 body) (take-IsBytes 8 body bytes),
      count_words_bytes n (drop 8 body) (drop-IsBytes 8 body bytes)
          (omega (arith, length-drop 8 body)),
      ap count_bytes (drop-drop (8 * n) 8 body),
      ap (λ k. count_bytes (drop k body)) (let e : 8 + 8 * n ≡ 8 * suc n = omega arith in e),
      count_bytes-split 8 body,
    )

get_or-drop : (d i : ℕ) (xs : List ℕ) → get_or (drop d xs) i 0 ≡ get_or xs (d + i) 0
get_or-drop zero i xs = ap (λ k. get_or xs k 0) (let e : i ≡ 0 + i = omega arith in e)
get_or-drop (suc d) i [] = refl
get_or-drop (suc d) i (x ∷ xs) =
    get_or-drop d i xs
    ∙ ap (λ k. get_or (x ∷ xs) k 0) (let e : suc (d + i) ≡ suc d + i = omega arith in e)

get_or-take : (n i : ℕ) (xs : List ℕ) → i < n → get_or (take n xs) i 0 ≡ get_or xs i 0
get_or-take zero i xs h = absurd (omega arith)
get_or-take (suc n) i [] h = refl
get_or-take (suc n) zero (x ∷ xs) h = refl
get_or-take (suc n) (suc i) (x ∷ xs) h = get_or-take n i xs (omega arith)

pub ones_in-window :
    (bits : List ℕ) (d n : ℕ)
    → ones_in (take n (drop d bits)) 0 (n * 8) ≡ ones_in bits (d * 8) (n * 8)
unfolding bit_at
ones_in-window bits d n =
    sum_ext (bit_at (take n (drop d bits))) (bit_at bits) 0 (d * 8) (n * 8) (λ k q.
      ap₂ bit (let e : (0 + k) % 8 ≡ (d * 8 + k) % 8 = omega arith in e) (
        get_or-take n ((0 + k) / 8) (drop d bits) (omega arith)
        ∙ (get_or-drop d ((0 + k) / 8) bits
            ∙ ap (λ j. get_or bits j 0)
                (let e : d + (0 + k) / 8 ≡ (d * 8 + k) / 8 = omega arith in e))))

same_start : (bits : List ℕ) (a b n : ℕ) → (0 < n → a ≡ b) → ones_in bits a n ≡ ones_in bits b n
unfolding sum
same_start bits a b zero h = refl
same_start bits a b (suc n) h =
    ap (λ (o : ℕ). bit_at bits o + sum (bit_at bits) (o + 1) n) (h (omega arith))

-- The count of ones by masks and words is the number of bits that are set in the range.
-- The conditions: the buffer holds bytes, and the range lies in it.
pub count_bits-ones_in :
    (bits : List ℕ) (bit_off len : ℕ)
    → IsBytes bits
    → bit_off + len ≤ length bits * 8
    → count_bits bits bit_off len ≡ ones_in bits bit_off len
unfolding count_bits
count_bits-ones_in bits bit_off len bytes h =
    let head : ℕ = min ((8 - bit_off % 8) % 8) len in
    let rest : ℕ = len - head in
    let pos : ℕ = bit_off + head in
    let whole : ℕ = rest / 8 in
    let body : List ℕ = take whole (drop (pos / 8) bits) in
    let long : length body ≡ whole =
      ground (arith, length-take whole (drop (pos / 8) bits), length-drop (pos / 8) bits) in
    let first = masked_bits bits (bit_off / 8) (bit_off % 8) head (omega arith) in
    let last = masked_bits bits ((pos + whole * 8) / 8) 0 (rest % 8) (omega arith) in
    let middle =
      count_words_bytes (length body / 8) body
        (take-IsBytes whole (drop (pos / 8) bits) (drop-IsBytes (pos / 8) bits bytes))
        (omega arith) in
    let aligned : 0 < rest → pos % 8 ≡ 0 = λ p. omega arith in
    ap₂ (λ (x : ℕ) (y : ℕ). x + y) (ap₂ (λ (x : ℕ) (y : ℕ). x + y) first middle) last
    ∙ omega (
      arith,
      count_bytes_sum body,
      ap (λ (k : ℕ). ones_in body 0 (k * 8)) long,
      ones_in-window bits (pos / 8) whole,
      same_start bits (bit_off / 8 * 8 + bit_off % 8) bit_off head (λ p. omega arith),
      same_start bits (pos / 8 * 8) pos (whole * 8) (λ p. omega (arith, aligned (omega arith))),
      same_start bits ((pos + whole * 8) / 8 * 8 + 0) (pos + whole * 8) (rest % 8)
          (λ p. omega (arith, aligned (omega arith))),
      ap (ones_in bits bit_off) (let e : len ≡ head + (whole * 8 + rest % 8) = omega arith in e),
      sum-split (bit_at bits) bit_off head (whole * 8 + rest % 8),
      sum-split (bit_at bits) pos (whole * 8) (rest % 8),
    )
