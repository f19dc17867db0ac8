-- ===== src/Format/Bitmap/Ones.antt =====
-- A bitmap on which all rows are valid.
use native.Mathlib.Nat.{pow-le-pow_right}
use stkoe_data.Base.{
  ℕ, zero, suc, ◌+◌, ◌-◌, ◌/◌, ◌%◌, ◌^◌, ◌≤◌, ◌<◌, ◌≡◌, refl, ap, ◌∙◌, List, length, replicate,
  length-replicate, length-set, false, ◌==◌, arith, Bool-cases, inl, inr, IsBytes, bit, bit_at,
  bit_at-set, bit_low_mask, get_or,
}
use stkoe_data.Format.Bitmap.{ones}
use stkoe_data.Format.Bitmap.Shape.{replicate-IsBytes, set-IsBytes}

get_or-replicate_byte : (m j b : ℕ) → j < m → get_or (replicate m b) j 0 ≡ b
get_or-replicate_byte zero j b h = absurd (omega arith)
get_or-replicate_byte (suc m) zero b h = refl
get_or-replicate_byte (suc m) (suc j) b h = get_or-replicate_byte m j b (omega arith)

bit_at-full : (m i : ℕ) → i / 8 < m → bit_at (replicate m 255) i ≡ 1
unfolding bit_at
bit_at-full m i h =
    ap (bit (i % 8)) (get_or-replicate_byte m (i / 8) 255 h)
    ∙ (bit_low_mask 8 (i % 8) ∙ ground arith)

last_bit :
    (rows i : ℕ)
    → i < rows
    → (rows % 8 == 0) ≡ false
    → i / 8 ≡ (rows + 7) / 8 - 1
    → bit (i % 8) (2 ^ (rows % 8) - 1) ≡ 1
last_bit rows i h q e =
    bit_low_mask (rows % 8) (i % 8) ∙ (let p : i % 8 < rows % 8 = ground arith in ground arith)

pub bit_at-ones : (rows i : ℕ) → i < rows → bit_at (ones rows).data' i ≡ 1
unfolding ones
bit_at-ones rows i h =
    let m : ℕ = (rows + 7) / 8 in
    let full : List ℕ = replicate m 255 in
    let long : length full ≡ m = length-replicate m 255 in
    elim (Bool-cases (rows % 8 == 0)) [
      | inl q ↦ rw q (bit_at-full m i (omega arith))
      | inr q ↦
          rw (q, long)
            (bit_at-set full (m - 1) (2 ^ (rows % 8) - 1) i (omega (arith, long))
              ∙ elim (Bool-cases (i / 8 == m - 1)) [
                | inl r ↦ rw r (last_bit rows i h q (ground arith))
                | inr r ↦ rw r (bit_at-full m i (omega arith))
              ])
    ]

pub length-ones : (rows : ℕ) → length (ones rows).data' ≡ (rows + 7) / 8
unfolding ones
length-ones rows = elim (Bool-cases (rows % 8 == 0)) [
  | inl q ↦ rw q (length-replicate ((rows + 7) / 8) 255)
  | inr q ↦
      rw q (length-set (replicate ((rows + 7) / 8) 255) _ _ ∙ length-replicate ((rows + 7) / 8) 255)
]

pub ones-IsBytes : (rows : ℕ) → IsBytes (ones rows).data'
unfolding ones
ones-IsBytes rows = elim (Bool-cases (rows % 8 == 0)) [
  | inl q ↦ rw q (replicate-IsBytes ((rows + 7) / 8) 255 (omega arith))
  | inr q ↦ rw q (
      set-IsBytes (replicate ((rows + 7) / 8) 255) _ (2 ^ (rows % 8) - 1)
        (replicate-IsBytes ((rows + 7) / 8) 255 (omega arith))
        (let e : 2 ^ (rows % 8) ≤ 2 ^ 8 = pow-le-pow_right (omega arith) {j = 8} (omega arith) in
          omega arith))
]
