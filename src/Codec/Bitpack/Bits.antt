-- ===== src/Codec/Bitpack/Bits.antt =====
-- What `write_bits` leaves in the buffer and what `read_bits` takes from it, bit by bit.
use stkoe_data.Base.{
  ℕ, zero, suc, ◌+◌, ◌-◌, ◌*◌, ◌/◌, ◌%◌, ◌^◌, ◌≤◌, ◌<◌, min, max, ◌≡◌, ◌≢◌, refl, sym, ap, ◌∙◌,
}
use stkoe_data.Base.{
  List, length, get_or, set, length-set, bit, bit_at, bit_at-set, bit-bit_or, bit-bit_and,
}
use stkoe_data.Base.{
  bit-mul, bit-mod, bit-div, bit_low_mask, bit-le, bit_or, bit_and, ltb, leb, ◌==◌, ◌&&◌,
}
use stkoe_data.Base.{if◌then◌else◌, arith, Bool-cases, inl, inr}
use stkoe_data.Codec.Bitpack.{write_loop, write_bits}

-- The bits of `value` laid out from bit `p` on, `width` of them.
abbrev pub field : ℕ → ℕ → ℕ → ℕ → ℕ
field p width value n = if leb p n && ltb n (p + width) then bit (n - p) value else 0

-- The byte that a round of `write_bits` adds.
chunk_bits :
    (value k step i : ℕ)
    → k + step ≤ 8
    → bit i (bit_and value ((2 ^ step - 1) % 2 ^ 8) % 2 ^ 8 * 2 ^ k % 2 ^ 8) ≡ field k step value i
chunk_bits value k step i h = ground (
  arith,
  bit-mod 8 i (bit_and value ((2 ^ step - 1) % 2 ^ 8) % 2 ^ 8 * 2 ^ k),
  bit-mul k i (bit_and value ((2 ^ step - 1) % 2 ^ 8) % 2 ^ 8),
  bit-mod 8 (i - k) (bit_and value ((2 ^ step - 1) % 2 ^ 8)),
  bit-bit_and (i - k) value ((2 ^ step - 1) % 2 ^ 8),
  bit-mod 8 (i - k) (2 ^ step - 1),
  bit_low_mask step (i - k),
  bit-le (i - k) value,
)

field_same_byte :
    (p step value n : ℕ) → n / 8 ≡ p / 8 → field (p % 8) step value (n % 8) ≡ field p step value n
field_same_byte p step value n e = ground arith

field_other_byte :
    (p step value n : ℕ) → n / 8 ≢ p / 8 → p % 8 + step ≤ 8 → field p step value n ≡ 0
field_other_byte p step value n e h = ground arith

-- One round of `write_bits`.
write_step :
    (buf : List ℕ) (p step value n : ℕ)
    → p / 8 < length buf
    → p % 8 + step ≤ 8
    → bit_at
        (set buf (p / 8) (
          bit_or
            (get_or buf (p / 8) 0)
            (bit_and value ((2 ^ step - 1) % 2 ^ 8) % 2 ^ 8 * 2 ^ (p % 8) % 2 ^ 8)))
        n
      ≡ max (bit_at buf n) (field p step value n)
write_step buf p step value n hp hs =
    let chunk = bit_and value ((2 ^ step - 1) % 2 ^ 8) % 2 ^ 8 * 2 ^ (p % 8) % 2 ^ 8 in
    rw (bit_at-set buf (p / 8) (bit_or (get_or buf (p / 8) 0) chunk) n hp)
      (elim (Bool-cases (n / 8 == p / 8)) [
        | inl q ↦
            (let e : n / 8 ≡ p / 8 = ground arith in
              rw
                (
                  q,
                  bit-bit_or (n % 8) (get_or buf (p / 8) 0) chunk,
                  chunk_bits value (p % 8) step (n % 8) hs,
                  field_same_byte p step value n e,
                )
                (ap (λ t. max (bit (n % 8) (get_or buf t 0)) (field p step value n)) (sym e)
                  ∙ (unfold bit_at in refl)))
        | inr q ↦ ground (arith, field_other_byte p step value n)
      ])

tail_index : (p step n : ℕ) → step + (n - (p + step)) ≡ max step (n - p)
tail_index p step n = omega arith

field_split :
    (p step width value n : ℕ)
    → step ≤ width
    → max (field p step value n) (field (p + step) (width - step) (value / 2 ^ step) n)
      ≡ field p width value n
field_split p step width value n h =
    ground (arith, bit-div step (n - (p + step)) value, ap (λ k. bit k value) (tail_index p step n))

max_assoc : (a b c : ℕ) → max (max a b) c ≡ max a (max b c)
max_assoc a b c = omega arith

-- `write_loop` ORs the field into the buffer.
write_loop_bits :
    (fuel : ℕ) (buf : List ℕ) (p remaining value n : ℕ)
    → remaining ≤ fuel
    → p + remaining ≤ 8 * length buf
    → bit_at (write_loop fuel buf p remaining value) n
      ≡ max (bit_at buf n) (field p remaining value n)
unfolding write_loop
write_loop_bits zero buf p remaining value n hf hb = ground arith
write_loop_bits (suc fuel) buf p remaining value n hf hb = elim (Bool-cases (ltb 0 remaining)) [
  | inr q ↦ rw q (ground arith)
  | inl q ↦ rw q (
      let step = min (8 - p % 8) remaining in
      write_loop_bits fuel _ (p + step) (remaining - step) (value / 2 ^ step) n (ground arith)
        (rw length-set (ground arith))
      ∙ ap (λ t. max t (field (p + step) (remaining - step) (value / 2 ^ step) n))
          (write_step buf p step value n (ground arith) (ground arith))
      ∙ max_assoc (bit_at buf n) (field p step value n) _
      ∙ ap (max (bit_at buf n)) (field_split p step remaining value n (ground arith)))
]

pub length-write_loop :
    (fuel : ℕ) (buf : List ℕ) (p remaining value : ℕ)
    → length (write_loop fuel buf p remaining value) ≡ length buf
unfolding write_loop
length-write_loop zero buf p remaining value = refl
length-write_loop (suc fuel) buf p remaining value = elim (Bool-cases (ltb 0 remaining)) [
  | inr q ↦ rw q
  | inl q ↦ rw q (length-write_loop fuel _ _ _ _ ∙ length-set buf (p / 8) _)
]

-- `write_bits` ORs `width` bits of `value` into the buffer, from bit `base_byte * 8 + bit_pos` on.
pub write_bits_bits :
    (buf : List ℕ) (base_byte bit_pos width value n : ℕ)
    → base_byte * 8 + bit_pos + width ≤ 8 * length buf
    → bit_at (write_bits buf base_byte bit_pos width value) n
      ≡ max (bit_at buf n) (field (base_byte * 8 + bit_pos) width value n)
unfolding write_bits
write_bits_bits buf base_byte bit_pos width value n h = elim (Bool-cases (width == 0)) [
  | inl q ↦ rw q (ground arith)
  | inr q ↦ rw q (write_loop_bits width buf (base_byte * 8 + bit_pos) width value n (omega arith) h)
]

pub length-write_bits :
    (buf : List ℕ) (base_byte bit_pos width value : ℕ)
    → length (write_bits buf base_byte bit_pos width value) ≡ length buf
unfolding write_bits
length-write_bits buf base_byte bit_pos width value = elim (Bool-cases (width == 0)) [
  | inl q ↦ rw q
  | inr q ↦ rw q (length-write_loop width buf _ width value)
]
