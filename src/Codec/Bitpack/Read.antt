-- ===== src/Codec/Bitpack/Read.antt =====
-- The bits that `read_bits` takes.
use stkoe_data.Base.{ℕ, zero, suc, ◌+◌, ◌-◌, ◌*◌, ◌/◌, ◌%◌, ◌^◌, ◌≤◌, ◌<◌, min, max, ◌≡◌, ap, ◌∙◌}
use stkoe_data.Base.{List, get_or, bit, bit_at, bit-bit_or, bit-bit_and, bit_or-lt, bit_of_lt}
use stkoe_data.Base.{
  bit-mul, bit-mod, bit-div, bit_low_mask, bit-le, bit_or, bit_and, ltb, leb, ◌==◌, ◌&&◌,
}
use stkoe_data.Base.{if◌then◌else◌, arith, Bool-cases, inl, inr}
use stkoe_data.Codec.Bitpack.{read_loop, read_bits}

-- Bit `i` of a number that holds `width - shifted` bits of the buffer, from bit `shifted` on.
abbrev gathered : List ℕ → ℕ → ℕ → ℕ → ℕ → ℕ
gathered buf p width shifted i =
    if leb shifted i && ltb i width then bit_at buf (p + (i - shifted)) else 0

-- The bits that one round takes from a byte.
chunk_bits :
    (buf : List ℕ) (p step j : ℕ)
    → p % 8 + step ≤ 8
    → bit j (bit_and (get_or buf (p / 8) 0 / 2 ^ (p % 8)) (2 ^ step - 1))
      ≡ (if ltb j step then bit_at buf (p + j) else 0)
chunk_bits buf p step j h = elim (Bool-cases (ltb j step)) [
  | inr q ↦ rw q (
      ground (
        arith,
        bit-bit_and j (get_or buf (p / 8) 0 / 2 ^ (p % 8)) (2 ^ step - 1),
        bit_low_mask step j,
      ))
  | inl q ↦ rw q (
      unfold bit_at in
      ground (
        arith,
        bit-bit_and j (get_or buf (p / 8) 0 / 2 ^ (p % 8)) (2 ^ step - 1),
        bit_low_mask step j,
        bit-div (p % 8) j (get_or buf (p / 8) 0),
        bit-le j (get_or buf (p / 8) 0 / 2 ^ (p % 8)),
        ap (λ k. bit k (get_or buf (p / 8) 0))
            (let e : (p + j) % 8 ≡ p % 8 + j = ground arith in e),
        ap (λ k. bit ((p + j) % 8) (get_or buf k 0))
            (let e : (p + j) / 8 ≡ p / 8 = ground arith in e),
      ))
]

read_step :
    (buf : List ℕ) (p step shifted value i : ℕ)
    → p % 8 + step ≤ 8
    → i < 64
    → bit i (
        bit_or value
          (bit_and (get_or buf (p / 8) 0 / 2 ^ (p % 8)) (2 ^ step - 1) * 2 ^ shifted % 2 ^ 64))
      ≡ max (bit i value) (gathered buf p (shifted + step) shifted i)
read_step buf p step shifted value i h hi =
    let chunk = bit_and (get_or buf (p / 8) 0 / 2 ^ (p % 8)) (2 ^ step - 1) in
    ground (
      arith,
      bit-bit_or i value (chunk * 2 ^ shifted % 2 ^ 64),
      bit-mod 64 i (chunk * 2 ^ shifted),
      bit-mul shifted i chunk,
      chunk_bits buf p step (i - shifted) h,
    )

max_assoc : (a b c : ℕ) → max (max a b) c ≡ max a (max b c)
max_assoc a b c = omega arith

gathered_split :
    (buf : List ℕ) (p width shifted step i : ℕ)
    → shifted + step ≤ width
    → max
        (gathered buf p (shifted + step) shifted i)
        (gathered buf (p + step) width (shifted + step) i)
      ≡ gathered buf p width shifted i
gathered_split buf p width shifted step i h = elim (Bool-cases (ltb i (shifted + step))) [
  | inl q ↦ ground arith
  | inr q ↦ ground (
    arith,
    ap (bit_at buf)
        (let e : p + step + (i - (shifted + step)) ≡ p + (i - shifted) = ground arith in e),
  )
]

read_loop_bits :
    (fuel : ℕ) (buf : List ℕ) (p width shifted value i : ℕ)
    → width ≤ fuel + shifted
    → i < 64
    → bit i (read_loop fuel buf p width shifted value)
      ≡ max (bit i value) (gathered buf p width shifted i)
unfolding read_loop
read_loop_bits zero buf p width shifted value i hf hi = ground arith
read_loop_bits (suc fuel) buf p width shifted value i hf hi =
    elim (Bool-cases (ltb shifted width)) [
      | inr q ↦ rw q (ground arith)
      | inl q ↦ rw q (
          let step = min (8 - p % 8) (width - shifted) in
          read_loop_bits fuel buf (p + step) width (shifted + step) _ i (ground arith) hi
          ∙ ap (λ t. max t (gathered buf (p + step) width (shifted + step) i))
              (read_step buf p step shifted value i (ground arith) hi)
          ∙ max_assoc (bit i value) (gathered buf p (shifted + step) shifted i) _
          ∙ ap (max (bit i value)) (gathered_split buf p width shifted step i (ground arith)))
    ]

-- Bit `i` of what `read_bits` returns is bit `bit_pos + i` of the buffer, below the width.
pub read_bits_bits :
    (buf : List ℕ) (bit_pos width i : ℕ)
    → i < 64
    → bit i (read_bits buf bit_pos width) ≡ (if ltb i width then bit_at buf (bit_pos + i) else 0)
unfolding read_bits
read_bits_bits buf bit_pos width i hi = elim (Bool-cases (width == 0)) [
  | inl q ↦ rw q (ground (arith, bit_of_lt 0 i 0))
  | inr q ↦ rw q (
      read_loop_bits width buf bit_pos width 0 0 i (omega arith) hi
      ∙ ground (arith, bit_of_lt 0 i 0))
]

read_loop-lt :
    (fuel : ℕ) (buf : List ℕ) (p width shifted value : ℕ)
    → value < 2 ^ 64
    → read_loop fuel buf p width shifted value < 2 ^ 64
unfolding read_loop
read_loop-lt zero buf p width shifted value h = h
read_loop-lt (suc fuel) buf p width shifted value h = elim (Bool-cases (ltb shifted width)) [
  | inr q ↦ rw q h
  | inl q ↦ rw q (read_loop-lt fuel buf _ width _ _ (bit_or-lt 64 value _ h (omega arith)))
]

pub read_bits-lt : (buf : List ℕ) (bit_pos width : ℕ) → read_bits buf bit_pos width < 2 ^ 64
unfolding read_bits
read_bits-lt buf bit_pos width = elim (Bool-cases (width == 0)) [
  | inl q ↦ rw q (omega arith)
  | inr q ↦ rw q (read_loop-lt width buf bit_pos width 0 0 (omega arith))
]
