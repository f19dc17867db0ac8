-- ===== src/Core/Field/Runs/Search.antt =====
-- What is found in a mask.
use stkoe_data.Base.{
  ℕ, zero, suc, ◌+◌, ◌-◌, ◌*◌, ◌/◌, ◌%◌, ◌^◌, ◌≤◌, ◌<◌, ◌≡◌, refl, ap, ◌∙◌, bit_and, List, [], ◌∷◌,
  length, get_or, All, true, false, Option, none, some, ok, ◌==◌, leb, ltb, if◌then◌else◌, arith,
  Bool-cases, inl, inr, bit, bit-bit_and, bit-mod, bit-mul, bit-le, bit_low_mask, bit_of_lt,
  two-pow-suc, bit_and-le,
}
use stkoe_data.Core.Field.Runs.{trailing_zeros, word, find_start}

-- Bit `n` of the mask.
unfoldable pub mask_bit : List ℕ → ℕ → ℕ
mask_bit mask n = bit (n % 64) (get_or mask (n / 64) 0)

-- The first set bit of a word.
pub record FirstBit (w t : ℕ) : Type 0 where
  pub is_set : bit t w ≡ 1
  pub below : (j : ℕ) → j < t → bit j w ≡ 0

pub trailing_zeros-FirstBit :
    (k w : ℕ) → 0 < w → w < 2 ^ k → FirstBit w (trailing_zeros k w) × (trailing_zeros k w < k)
unfolding trailing_zeros bit
trailing_zeros-FirstBit zero w pos h = absurd (omega arith)
trailing_zeros-FirstBit (suc k) w pos h = elim (Bool-cases (w % 2 == 1)) [
  | inl q ↦
      rw q (record { is_set = ground arith; below = λ j r. absurd (omega arith) }, omega arith)
  | inr q ↦
      let (first, small) =
        trailing_zeros-FirstBit k (w / 2) (ground arith) (omega (arith, two-pow-suc k)) in
      rw q (
        record { is_set = first.is_set; below = λ j r. later k w (ground arith) first j r },
        omega arith,
      )
]
  where
    later :
        (k w : ℕ)
        → w % 2 ≡ 0
        → FirstBit (w / 2) (trailing_zeros k (w / 2))
        → (j : ℕ) → j < suc (trailing_zeros k (w / 2))
        → bit j w ≡ 0
    later k w e first zero r = e
    later k w e first (suc j) r = first.below j (omega arith)

-- The words of a mask.
abbrev pub IsWords : List ℕ → Type 0
IsWords = All (λ (w : ℕ). w < 2 ^ 64)

pub word-ok :
    (mask : List ℕ) (i : ℕ)
    → IsWords mask
    → i < length mask
    → (word mask i ≡ ok (get_or mask i 0)) × (get_or mask i 0 < 2 ^ 64)
word-ok [] i h l = absurd (omega arith)
word-ok (w ∷ mask) zero h l = (refl, h.0)
word-ok (w ∷ mask) (suc i) h l = word-ok mask i h.1 (omega arith)

high_bits :
    (m p i : ℕ)
    → i < 64
    → bit i (bit_and m ((2 ^ 64 - 1) * 2 ^ p % 2 ^ 64)) ≡ (if ltb i p then 0 else bit i m)
high_bits m p i h = ground (
  arith,
  bit-bit_and i m ((2 ^ 64 - 1) * 2 ^ p % 2 ^ 64),
  bit-mod 64 i ((2 ^ 64 - 1) * 2 ^ p),
  bit-mul p i (2 ^ 64 - 1),
  bit_low_mask 64 (i - p),
  bit-le i m,
)

low_mask : ℕ → ℕ → ℕ
low_mask m p = bit_and m ((2 ^ 64 - 1) * 2 ^ p % 2 ^ 64)

pub mask_bit_in :
    (mask : List ℕ) (n q : ℕ) → n / 64 ≡ q → mask_bit mask n ≡ bit (n % 64) (get_or mask q 0)
unfolding mask_bit
mask_bit_in mask n q e = ap (λ (j : ℕ). bit (n % 64) (get_or mask j 0)) e

no_bits : (m p i : ℕ) → (low_mask m p == 0) ≡ true → p ≤ i → i < 64 → bit i m ≡ 0
unfolding low_mask
no_bits m p i q h small =
    let z : low_mask m p ≡ 0 = ground arith in
    let e = ap (bit i) z ∙ bit_of_lt 0 i 0 (omega arith) (omega arith) in
    ground (arith, high_bits m p i small, e)

-- The first set bit of the mask from `pos` on, or none before `len`.
unfoldable pub Found : List ℕ → ℕ → ℕ → Option ℕ → Type 0
Found mask pos len none = (n : ℕ) → pos ≤ n → n < len → mask_bit mask n ≡ 0
Found mask pos len (some s) =
    (pos ≤ s)
    × (s < length mask * 64)
    × (mask_bit mask s ≡ 1)
    × ((n : ℕ) → pos ≤ n → n < s → mask_bit mask n ≡ 0)

low_mask-lt : (m p : ℕ) → m < 2 ^ 64 → low_mask m p < 2 ^ 64
unfolding low_mask
low_mask-lt m p h = let e = bit_and-le 64 m ((2 ^ 64 - 1) * 2 ^ p % 2 ^ 64) h in omega arith

here-Found :
    (mask : List ℕ) (len pos : ℕ)
    → pos / 64 < length mask
    → get_or mask (pos / 64) 0 < 2 ^ 64
    → (low_mask (get_or mask (pos / 64) 0) (pos % 64) == 0) ≡ false
    → Found mask pos len
        (some (pos / 64 * 64 + trailing_zeros 64 (low_mask (get_or mask (pos / 64) 0) (pos % 64))))
unfolding Found low_mask
here-Found mask len pos inside m_lt q =
    let m : ℕ = get_or mask (pos / 64) 0 in
    let w : ℕ = low_mask m (pos % 64) in
    let (first, small) =
      trailing_zeros-FirstBit 64 w (ground arith) (low_mask-lt m (pos % 64) m_lt) in
    let t : ℕ = trailing_zeros 64 w in
    let s : ℕ = pos / 64 * 64 + t in
    let high : (i : ℕ) → i < 64 → bit i w ≡ (if ltb i (pos % 64) then 0 else bit i m) =
      λ i h. high_bits m (pos % 64) i h in
    let set' : bit t w ≡ 1 = first.is_set in
    let at : pos % 64 ≤ t = ground (arith, high t small, set') in
    let word_of : (n : ℕ)
        → pos / 64 * 64 ≤ n
        → n < pos / 64 * 64 + 64
        → mask_bit mask n ≡ bit (n % 64) m =
      λ n h k. mask_bit_in mask n (pos / 64) (omega arith) in
    (
      omega arith,
      omega arith,
      word_of s (omega arith) (omega arith)
          ∙ (ap (λ (i : ℕ). bit i m) (let e : s % 64 ≡ t = omega arith in e)
              ∙ ground (arith, high t small, set')),
      λ n h k.
          word_of n (omega arith) (omega arith)
          ∙ (let z = first.below (n % 64) (omega arith) in
              let e = high (n % 64) (omega arith) in ground (arith, e, z)),
    )

zero_here :
    (mask : List ℕ) (pos n : ℕ)
    → (low_mask (get_or mask (pos / 64) 0) (pos % 64) == 0) ≡ true
    → pos ≤ n
    → n < (pos / 64 + 1) * 64
    → mask_bit mask n ≡ 0
zero_here mask pos n q h k =
    mask_bit_in mask n (pos / 64) (omega arith)
    ∙ no_bits (get_or mask (pos / 64) 0) (pos % 64) (n % 64) q (omega arith) (omega arith)

later-Found :
    (mask : List ℕ) (len pos : ℕ) (found : Option ℕ)
    → (low_mask (get_or mask (pos / 64) 0) (pos % 64) == 0) ≡ true
    → Found mask ((pos / 64 + 1) * 64) len found
    → Found mask pos len found
unfolding Found
later-Found mask len pos none q spec = λ n h k. elim (Bool-cases (ltb n ((pos / 64 + 1) * 64))) [
  | inl r ↦ zero_here mask pos n q h (ground arith)
  | inr r ↦ spec n (ground arith) k
]
later-Found mask len pos (some s) q (late, inside, is_set, below) = (
  omega arith,
  inside,
  is_set,
  λ n h k. elim (Bool-cases (ltb n ((pos / 64 + 1) * 64))) [
    | inl r ↦ zero_here mask pos n q h (ground arith)
    | inr r ↦ below n (ground arith) k
  ],
)

pub find_start-Found :
    (fuel : ℕ) (mask : List ℕ) (len pos : ℕ)
    → IsWords mask
    → pos < len
    → len ≤ length mask * 64
    → len ≤ (pos / 64 + fuel) * 64
    → (r : Option ℕ) × (find_start fuel mask len pos ≡ ok r) × Found mask pos len r
unfolding find_start Found low_mask
find_start-Found zero mask len pos words h covered enough = absurd (omega arith)
find_start-Found (suc fuel) mask len pos words h covered enough =
    let (here, m_lt) = word-ok mask (pos / 64) words (omega arith) in
    let m : ℕ = get_or mask (pos / 64) 0 in
    elim (Bool-cases (low_mask m (pos % 64) == 0)) [
      | inr q ↦ (
        some (pos / 64 * 64 + trailing_zeros 64 (low_mask m (pos % 64))),
        rw (here, q) refl,
        here-Found mask len pos (omega arith) m_lt q,
      )
      | inl q ↦ elim (Bool-cases (leb len ((pos / 64 + 1) * 64))) [
        | inl r ↦ (none, rw (here, q, r) refl, λ n k l. zero_here mask pos n q k (ground arith))
        | inr r ↦
            let next : ℕ = (pos / 64 + 1) * 64 in
            let (found, e, spec) =
              find_start-Found fuel mask len next words (ground arith) covered (omega arith) in
            (found, rw (here, q, r) e, later-Found mask len pos found q spec)
      ]
    ]
