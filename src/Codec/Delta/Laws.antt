-- ===== src/Codec/Delta/Laws.antt =====
-- Decoding what was stored as differences.
use native.Mathlib.Nat.{mod-eq_of_lt, mod-mod, mul-div_cancel}
use mathlib.Core.Path.{subst}
use stkoe_data.Base.{
  ℕ, zero, suc, ◌+◌, ◌-◌, ◌*◌, ◌/◌, ◌%◌, ◌^◌, ◌≤◌, ◌<◌, ◌≡◌, refl, sym, ap, ◌∙◌, ◌⊎◌,
}
use stkoe_data.Base.{List, ◌++◌, ap₂, length, take, drop}
use stkoe_data.Base.{ok, ◌>>=◌, IsBytes, take-le_bytes, words, word_at, word_at-words}
use stkoe_data.Base.{
  from_le-zeros, words-word_at, low_bytes_of_mod, length-words, word_at-lt, inl, inr, arith, ◌==◌,
  ==-of_eq, if◌then◌else◌,
}
use stkoe_data.Format.DataType.{DataType, size_of, IsWidth, width_bounds}
use stkoe_data.Codec.Delta.{read_word, wrapping_sub, wrapping_add, delta_word, encode_loop}
use stkoe_data.Codec.Delta.{encode, decode_loop, decode}

read_word-eq-word_at : (buf : List ℕ) (i s : ℕ) → read_word buf i s ≡ word_at s buf i
unfolding read_word word_at
read_word-eq-word_at buf i s = from_le-zeros (take s (drop (i * s) buf)) (8 - s)

encode_loop-eq-words :
    (s : ℕ) (values : List ℕ) (left i : ℕ)
    → s ≤ 8
    → encode_loop s values left i ≡ words s (delta_word values s) left i
unfolding encode_loop words
encode_loop-eq-words s values zero i h = refl
encode_loop-eq-words s values (suc left) i h =
    ap₂ ◌++◌ (take-le_bytes s 8 (delta_word values s i) h)
      (encode_loop-eq-words s values left (i + 1) h)

-- One round of the decoder gives back the word, whatever the high bits of `prev` are.
abbrev Undoes : ℕ → ℕ → ℕ → ℕ → Type 0
Undoes a b prev s =
    a < 256 ^ s
    → b < 256 ^ s
    → prev % 256 ^ s ≡ b
    → wrapping_add prev (wrapping_sub a b % 256 ^ s) % 256 ^ s ≡ a

undo_delta : (s a b prev : ℕ) → IsWidth s → Undoes a b prev s
undo_delta s a b prev (inl e) = subst (Undoes a b prev) (sym e) (λ ha hb hp. omega arith)
undo_delta s a b prev (inr (inl e)) = subst (Undoes a b prev) (sym e) (λ ha hb hp. omega arith)
undo_delta s a b prev (inr (inr (inl e))) =
    subst (Undoes a b prev) (sym e) (λ ha hb hp. omega arith)
undo_delta s a b prev (inr (inr (inr e))) =
    subst (Undoes a b prev) (sym e) (λ ha hb hp. omega arith)

module _ (s : ℕ) (values payload : List ℕ) (n : ℕ) (width : IsWidth s)
    (sized : length values ≡ n * s) (bytes : IsBytes values)
    (stored : (j : ℕ) → j < n → word_at s payload j ≡ delta_word values s j % 256 ^ s) where
  -- The value that the decoder computes for row `i`, modulo the word.
  row_value :
      (i prev : ℕ)
      → i < n
      → (i ≡ 0) ⊎ (prev % 256 ^ s ≡ word_at s values (i - 1))
      → (if i == 0 then read_word payload i s else wrapping_add prev (read_word payload i s))
          % 256 ^ s
        ≡ word_at s values i
  unfolding delta_word
  row_value zero prev h p = rw read_word-eq-word_at (
      rw (stored 0 h) (
        rw read_word-eq-word_at (
          mod-mod (word_at s values 0) (256 ^ s)
          ∙ mod-eq_of_lt (word_at-lt s values n 0 sized bytes h))))
  row_value (suc i) prev h (inl e) = absurd (omega arith)
  row_value (suc i) prev h (inr e) = ground (
    arith,
    stored (suc i) h,
    read_word-eq-word_at payload (suc i) s,
    read_word-eq-word_at values (suc i) s,
    read_word-eq-word_at values (suc i - 1) s,
    undo_delta s (word_at s values (suc i)) (word_at s values (suc i - 1)) prev width
        (word_at-lt s values n (suc i) sized bytes h)
        (word_at-lt s values n (suc i - 1) sized bytes (omega arith)) e,
  )

  decode_loop-eq-words :
      (left i prev : ℕ)
      → i + left ≡ n
      → (i ≡ 0) ⊎ (prev % 256 ^ s ≡ word_at s values (i - 1))
      → decode_loop s payload left i prev ≡ words s (word_at s values) left i
  unfolding decode_loop words
  decode_loop-eq-words zero i prev e p = refl
  decode_loop-eq-words (suc left) i prev e p =
      let q = row_value i prev (omega arith) p in
      ap₂ ◌++◌ (low_bytes_of_mod s _ _ (width_bounds s width).1 q) (
        decode_loop-eq-words left (i + 1) _ (omega arith)
          (inr (q ∙ ap (word_at s values) (let r : i ≡ i + 1 - 1 = omega arith in r))))

pub length-encode_loop :
    (s : ℕ) (values : List ℕ) (left i : ℕ) → s ≤ 8 → length (encode_loop s values left i) ≡ left * s
length-encode_loop s values left i h =
    rw (encode_loop-eq-words s values left i h) (length-words s (delta_word values s) left i)

rows_of_length : (s n : ℕ) → 0 < s → n * s / s ≡ n
rows_of_length s n h = mul-div_cancel n h

decode_ok :
    (data_type : DataType) (payload : List ℕ) (rows : ℕ)
    → length payload ≡ rows * size_of data_type
    → decode data_type payload rows ≡ ok (decode_loop (size_of data_type) payload rows 0 0)
unfolding decode
decode_ok data_type payload rows h = rw (==-of_eq _ _ h)

module _ (data_type : DataType) (values : List ℕ) (rows : ℕ) (width : IsWidth (size_of data_type))
    (sized : length values ≡ rows * size_of data_type) where
  pub encode_ok : encode data_type values ≡ ok (encode_loop (size_of data_type) values rows 0)
  unfolding encode
  encode_ok =
      let b = width_bounds (size_of data_type) width in
      ground (
        arith,
        rows_of_length (size_of data_type) rows b.0,
        ap (λ (l : ℕ). l / size_of data_type) sized,
      )

  -- A column of `rows` fixed-width values that is stored as differences is read back unchanged.
  pub decode-encode_delta :
      IsBytes values
      → (encode data_type values >>= λ payload. decode data_type payload rows) ≡ ok values
  decode-encode_delta bytes = rw encode_ok decoded
    where
      s : ℕ
      s = size_of data_type

      payload : List ℕ
      payload = encode_loop s values rows 0

      stored : (j : ℕ) → j < rows → word_at s payload j ≡ delta_word values s j % 256 ^ s
      stored j h =
          ap (λ p. word_at s p j) (encode_loop-eq-words s values rows 0 (width_bounds s width).1)
          ∙ word_at-words s (delta_word values s) rows 0 j h
          ∙ ap (λ k. delta_word values s k % 256 ^ s) (let e : 0 + j ≡ j = omega arith in e)

      decoded : decode data_type payload rows ≡ ok values
      decoded =
          decode_ok data_type payload rows
            (length-encode_loop s values rows 0 (width_bounds s width).1)
          ∙ ap ok (
              decode_loop-eq-words s values payload rows width sized bytes stored rows 0 0
                (omega arith) (inl refl)
              ∙ words-word_at s values rows sized bytes)
