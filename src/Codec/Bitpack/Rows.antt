-- ===== src/Codec/Bitpack/Rows.antt =====
-- Where `encode` leaves the bits of each row, and how wide a row is.
use stkoe_data.Base.{ℕ, zero, suc, ◌+◌, ◌-◌, ◌*◌, ◌/◌, ◌≤◌, ◌<◌, max, ◌≡◌, refl, ap, ◌∙◌}
use stkoe_data.Base.{List, [], ◌∷◌, length, get_or, bit, bit_at, get_or-set, length-set}
use stkoe_data.Base.{ltb, ◌==◌, arith, Bool-cases, inl, inr}
use stkoe_data.Codec.Bitpack.{write_loop, write_bits, write_values}
use stkoe_data.Codec.Bitpack.Bits.{field, write_bits_bits, length-write_bits}

-- The bits of the rows from `i` on, behind the width byte.
pub laid : List ℕ → ℕ → ℕ → ℕ → ℕ
laid [] i width n = 0
laid (v ∷ vs) i width n = max (field (1 * 8 + i * width) width v n) (laid vs (i + 1) width n)

laid_before : (vs : List ℕ) (i width n : ℕ) → n < 8 + i * width → laid vs i width n ≡ 0
unfolding laid
laid_before [] i width n h = refl
laid_before (v ∷ vs) i width n h = ground (arith, laid_before vs (i + 1) width n (omega arith))

pub laid_row :
    (vs : List ℕ) (i width k j : ℕ)
    → j < width
    → k < length vs
    → laid vs i width (8 + (i + k) * width + j) ≡ bit j (get_or vs k 0)
unfolding laid
laid_row [] i width k j hj hk = absurd (omega arith)
laid_row (v ∷ vs) i width zero j hj hk =
    let e : i + zero ≡ i = omega arith in
    rw e (
      ground (
        arith,
        laid_before vs (i + 1) width (8 + i * width + j) (omega arith),
        ap (λ t. bit t v) (let q : 8 + i * width + j - (1 * 8 + i * width) ≡ j = omega arith in q),
      ))
laid_row (v ∷ vs) i width (suc k) j hj hk =
    let e : i + suc k ≡ i + 1 + k = omega arith in
    rw e (
      let past : 1 * 8 + i * width + width ≤ 8 + (i + 1 + k) * width + j = grind arith in
      ground (arith, laid_row vs (i + 1) width k j hj (omega arith)))

pub write_values_bits :
    (vs : List ℕ) (i width : ℕ) (out : List ℕ) (n : ℕ)
    → 8 + (i + length vs) * width ≤ 8 * length out
    → bit_at (write_values vs i width out) n ≡ max (bit_at out n) (laid vs i width n)
unfolding write_values laid
write_values_bits [] i width out n h = omega arith
write_values_bits (v ∷ vs) i width out n h =
    write_values_bits vs (i + 1) width (write_bits out 1 (i * width) width v) n
      (rw length-write_bits (grind arith))
    ∙ ap (λ t. max t (laid vs (i + 1) width n))
        (write_bits_bits out 1 (i * width) width v n (grind arith))
    ∙ (omega arith)

pub length-write_values :
    (vs : List ℕ) (i width : ℕ) (out : List ℕ) → length (write_values vs i width out) ≡ length out
unfolding write_values
length-write_values [] i width out = refl
length-write_values (v ∷ vs) i width out =
    length-write_values vs (i + 1) width _ ∙ length-write_bits out 1 (i * width) width v

-- The width byte stays in front.
write_loop_front :
    (fuel : ℕ) (buf : List ℕ) (p remaining value : ℕ)
    → 8 ≤ p
    → p + remaining ≤ 8 * length buf
    → get_or (write_loop fuel buf p remaining value) 0 0 ≡ get_or buf 0 0
unfolding write_loop
write_loop_front zero buf p remaining value h hb = refl
write_loop_front (suc fuel) buf p remaining value h hb = elim (Bool-cases (ltb 0 remaining)) [
  | inr q ↦ rw q
  | inl q ↦ rw q (
      write_loop_front fuel _ _ _ _ (omega arith) (rw length-set (ground arith))
      ∙ get_or-set buf (p / 8) 0 _ 0 (ground arith)
      ∙ (ground arith))
]

write_bits_front :
    (buf : List ℕ) (bit_pos width value : ℕ)
    → 1 * 8 + bit_pos + width ≤ 8 * length buf
    → get_or (write_bits buf 1 bit_pos width value) 0 0 ≡ get_or buf 0 0
unfolding write_bits
write_bits_front buf bit_pos width value h = elim (Bool-cases (width == 0)) [
  | inl q ↦ rw q
  | inr q ↦ rw q (write_loop_front width buf (1 * 8 + bit_pos) width value (omega arith) h)
]

pub write_values_front :
    (vs : List ℕ) (i width : ℕ) (out : List ℕ)
    → 8 + (i + length vs) * width ≤ 8 * length out
    → get_or (write_values vs i width out) 0 0 ≡ get_or out 0 0
unfolding write_values
write_values_front [] i width out h = refl
write_values_front (v ∷ vs) i width out h =
    write_values_front vs (i + 1) width _ (rw length-write_bits (grind arith))
    ∙ write_bits_front out (i * width) width v (grind arith)
