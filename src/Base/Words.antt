-- ===== src/Base/Words.antt =====
-- Fixed-width words in a byte buffer, and the buffers that are written word after word.
use Prim.Native.Nat.{ℕ, zero, suc, ◌+◌, ◌-◌, ◌*◌, ◌%◌, ◌^◌, ◌≤◌, ◌<◌}
use mathlib.Core.Path.{◌≡◌, refl, sym, ap, ap₂, ◌∙◌}
use mathlib.Core.List.{List, [], ◌++◌}
use native.Mathlib.Omega.{arith}
use stkoe_data.Base.Lists.{length, take, drop, length-append, length-take, length-drop}
use stkoe_data.Base.Lists.{take-append, drop-append, drop-drop, take-append-drop, drop_all}
use stkoe_data.Base.Bytes.{IsBytes, le_bytes, from_le, length-le_bytes, from_le-le_bytes}
use stkoe_data.Base.Bytes.{le_bytes-from_le, from_le-lt, take-IsBytes, drop-IsBytes}

-- The word of `s` bytes at index `i`.
unfoldable pub word_at : ℕ → List ℕ → ℕ → ℕ
word_at s buf i = from_le (take s (drop (i * s) buf))

-- `left` words from index `i` on, `f j` at index `j`.
unfoldable pub words : ℕ → (ℕ → ℕ) → ℕ → ℕ → List ℕ
words s f zero i = []
words s f (suc left) i = le_bytes s (f i) ++ words s f left (i + 1)

pub length-words : (s : ℕ) (f : ℕ → ℕ) (left i : ℕ) → length (words s f left i) ≡ left * s
unfolding words
length-words s f zero i = omega arith
length-words s f (suc left) i = omega (
  arith,
  length-append (le_bytes s (f i)) (words s f left (i + 1)),
  length-le_bytes s (f i),
  length-words s f left (i + 1),
)

pub words_ext :
    (s : ℕ) (f g : ℕ → ℕ) (left i : ℕ)
    → ((j : ℕ) → i ≤ j → j < i + left → f j ≡ g j)
    → words s f left i ≡ words s g left i
unfolding words
words_ext s f g zero i h = refl
words_ext s f g (suc left) i h =
    ap₂ ◌++◌ (ap (le_bytes s) (h i (omega arith) (omega arith)))
      (words_ext s f g left (i + 1) (λ j p q. h j (omega arith) (omega arith)))

word_at_zero : (s x : ℕ) (r : List ℕ) → word_at s (le_bytes s x ++ r) 0 ≡ x % 256 ^ s
unfolding word_at
word_at_zero s x r =
    ap (λ k. from_le (take s (drop k (le_bytes s x ++ r)))) (let e : 0 * s ≡ 0 = omega arith in e)
    ∙ ap from_le (take-append s (le_bytes s x) r (length-le_bytes s x))
    ∙ from_le-le_bytes s x

word_at-suc : (s x j : ℕ) (r : List ℕ) → word_at s (le_bytes s x ++ r) (suc j) ≡ word_at s r j
unfolding word_at
word_at-suc s x j r =
    ap (λ k. from_le (take s (drop k (le_bytes s x ++ r))))
      (let e : suc j * s ≡ s + j * s = grind arith in e)
    ∙ ap (λ t. from_le (take s t))
        (sym (drop-drop (j * s) s (le_bytes s x ++ r))
          ∙ ap (drop (j * s)) (drop-append s (le_bytes s x) r (length-le_bytes s x)))

-- Reading back the word at an index.
pub word_at-words :
    (s : ℕ) (f : ℕ → ℕ) (left i j : ℕ)
    → j < left
    → word_at s (words s f left i) j ≡ f (i + j) % 256 ^ s
unfolding words
word_at-words s f zero i j h = absurd (omega arith)
word_at-words s f (suc left) i zero h =
    let e : i + zero ≡ i = omega arith in rw e (word_at_zero s (f i) (words s f left (i + 1)))
word_at-words s f (suc left) i (suc j) h =
    let e : i + suc j ≡ i + 1 + j = omega arith in
    rw e (
      word_at-suc s (f i) j (words s f left (i + 1))
      ∙ word_at-words s f left (i + 1) j (omega arith))

-- What is left of the buffer after `i` words holds the next one.
word_fits : (s i left n : ℕ) → i + suc left ≡ n → i * s + s ≤ n * s
word_fits s i left n e = grind arith

pub length-word :
    (s : ℕ) (buf : List ℕ) (n i : ℕ)
    → length buf ≡ n * s
    → i < n
    → length (take s (drop (i * s) buf)) ≡ s
length-word s buf n i hl h = omega (
  arith,
  length-take s (drop (i * s) buf),
  length-drop (i * s) buf,
  word_fits s i (n - i - 1) n (omega arith),
)

pub le_bytes-word_at :
    (s : ℕ) (buf : List ℕ) (n i : ℕ)
    → length buf ≡ n * s
    → IsBytes buf
    → i < n
    → le_bytes s (word_at s buf i) ≡ take s (drop (i * s) buf)
unfolding word_at
le_bytes-word_at s buf n i hl hb h =
    ap (λ k. le_bytes k (from_le (take s (drop (i * s) buf)))) (sym (length-word s buf n i hl h))
    ∙ le_bytes-from_le (take s (drop (i * s) buf)) (take-IsBytes s _ (drop-IsBytes (i * s) buf hb))

pub word_at-lt :
    (s : ℕ) (buf : List ℕ) (n i : ℕ)
    → length buf ≡ n * s
    → IsBytes buf
    → i < n
    → word_at s buf i < 256 ^ s
unfolding word_at
word_at-lt s buf n i hl hb h =
    rw (length-word s buf n i hl h) at
      (from_le-lt (take s (drop (i * s) buf)) (take-IsBytes s _ (drop-IsBytes (i * s) buf hb)))

-- A buffer of `n` words is what its words write.
words-word_at_from :
    (s : ℕ) (buf : List ℕ) (n left i : ℕ)
    → length buf ≡ n * s
    → IsBytes buf
    → i + left ≡ n
    → words s (word_at s buf) left i ≡ drop (i * s) buf
unfolding words
words-word_at_from s buf n zero i hl hb e =
    sym (drop_all (i * s) buf (rw hl (let q : n ≡ i = omega arith in rw q (omega arith))))
words-word_at_from s buf n (suc left) i hl hb e =
    ap₂ ◌++◌ (le_bytes-word_at s buf n i hl hb (omega arith)) (
      words-word_at_from s buf n left (i + 1) hl hb (omega arith)
      ∙ ap (λ k. drop k buf) (let q : (i + 1) * s ≡ i * s + s = omega arith in q)
      ∙ sym (drop-drop s (i * s) buf))
    ∙ take-append-drop s (drop (i * s) buf)

pub words-word_at :
    (s : ℕ) (buf : List ℕ) (n : ℕ)
    → length buf ≡ n * s
    → IsBytes buf
    → words s (word_at s buf) n 0 ≡ buf
words-word_at s buf n hl hb =
    words-word_at_from s buf n n 0 hl hb (omega arith)
    ∙ ap (λ k. drop k buf) (let q : 0 * s ≡ 0 = omega arith in q)
