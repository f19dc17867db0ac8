-- ===== src/Core/Field/Runs/Extend.antt =====
-- How far a run of hits goes.
use native.Mathlib.Nat.{div-le_self}
use stkoe_data.Base.{
  ℕ, zero, suc, ◌+◌, ◌-◌, ◌*◌, ◌/◌, ◌%◌, ◌^◌, ◌≤◌, ◌<◌, ◌≡◌, refl, sym, ap, ◌∙◌, min, ◌⊎◌, List,
  length, get_or, true, false, Option, none, some, ok, ◌==◌, leb, ltb, if◌then◌else◌, arith,
  Bool-cases, inl, inr, bit, bit-div, bit-le, bit_complement, bit_of_lt,
}
use stkoe_data.Core.Field.Runs.{trailing_zeros, find_start, extend_run, next_true_run}
use stkoe_data.Core.Field.Runs.Search.{
  mask_bit, mask_bit_in, trailing_zeros-FirstBit, IsWords, word-ok, Found, find_start-Found,
}

zeros_of : ℕ → ℕ → ℕ
zeros_of m p = (2 ^ 64 - 1 - m) / 2 ^ p

zero_bits :
    (m p j : ℕ)
    → m < 2 ^ 64
    → bit j (zeros_of m p) ≡ (if ltb (p + j) 64 then 1 - bit (p + j) m else 0)
unfolding zeros_of
zero_bits m p j h = bit-div p j (2 ^ 64 - 1 - m) ∙ bit_complement 64 (p + j) m h

-- The bits up to the end are set, and the next is not, or the mask ends.
pub record Extends (mask : List ℕ) (start end : ℕ) : Type 0 where
  pub after : start ≤ end
  pub inside : end ≤ length mask * 64
  pub hits : (n : ℕ) → start ≤ n → n < end → mask_bit mask n ≡ 1
  pub stops : (end ≡ length mask * 64) ⊎ (mask_bit mask end ≡ 0)

one_here :
    (mask : List ℕ) (pos n : ℕ)
    → get_or mask (pos / 64) 0 < 2 ^ 64
    → (zeros_of (get_or mask (pos / 64) 0) (pos % 64) == 0) ≡ true
    → pos ≤ n
    → n < (pos / 64 + 1) * 64
    → mask_bit mask n ≡ 1
one_here mask pos n m_lt q h k =
    let m : ℕ = get_or mask (pos / 64) 0 in
    let p : ℕ = pos % 64 in
    let j : ℕ = n % 64 - p in
    let z : zeros_of m p ≡ 0 = ground arith in
    let e = ap (bit j) z ∙ bit_of_lt 0 j 0 (omega arith) (omega arith) in
    let f = zero_bits m p j m_lt in
    let small : p + j < 64 = omega arith in
    let same : p + j ≡ n % 64 = omega arith in
    mask_bit_in mask n (pos / 64) (omega arith)
    ∙ (ap (λ (i : ℕ). bit i m) (sym same)
        ∙ (let b = bit-le (p + j) m in ground (arith, e, f, small, b)))

zeros_of-lt : (m p : ℕ) → zeros_of m p < 2 ^ 64
unfolding zeros_of
zeros_of-lt m p = let e = div-le_self (2 ^ 64 - 1 - m) (2 ^ p) in omega arith

stops_here :
    (mask : List ℕ) (pos : ℕ)
    → pos / 64 < length mask
    → get_or mask (pos / 64) 0 < 2 ^ 64
    → (zeros_of (get_or mask (pos / 64) 0) (pos % 64) == 0) ≡ false
    → Extends mask pos (pos + trailing_zeros 64 (zeros_of (get_or mask (pos / 64) 0) (pos % 64)))
stops_here mask pos inside m_lt q =
    let m : ℕ = get_or mask (pos / 64) 0 in
    let p : ℕ = pos % 64 in
    let z : ℕ = zeros_of m p in
    let z_lt : z < 2 ^ 64 = zeros_of-lt m p in
    let (first, small) = trailing_zeros-FirstBit 64 z (ground arith) z_lt in
    let t : ℕ = trailing_zeros 64 z in
    let at = zero_bits m p t m_lt in
    let set' = first.is_set in
    let low : p + t < 64 = ground (arith, at, set') in
    record {
      after = omega arith;
      inside = omega arith;
      hits = λ n h k.
          let j : ℕ = n % 64 - p in
          let same : p + j ≡ n % 64 = omega arith in
          let e = zero_bits m p j m_lt in
          let f = first.below j (omega arith) in
          let b = bit-le (p + j) m in
          mask_bit_in mask n (pos / 64) (omega arith)
          ∙ (ap (λ (i : ℕ). bit i m) (sym same)
              ∙ (let low' : p + j < 64 = omega arith in ground (arith, e, f, b, low')));
      stops = inr (
          mask_bit_in mask (pos + t) (pos / 64) (omega arith)
          ∙ (ap (λ (i : ℕ). bit i m) (let e : (pos + t) % 64 ≡ p + t = omega arith in e)
              ∙ (let b = bit-le (p + t) m in ground (arith, at, set', b))));
    }

later-Extends :
    (mask : List ℕ) (pos end : ℕ)
    → get_or mask (pos / 64) 0 < 2 ^ 64
    → (zeros_of (get_or mask (pos / 64) 0) (pos % 64) == 0) ≡ true
    → Extends mask ((pos / 64 + 1) * 64) end
    → Extends mask pos end
later-Extends mask pos end m_lt q x =
    let late = x.after in
    record {
      after = omega arith;
      inside = x.inside;
      hits = λ n h k. elim (Bool-cases (ltb n ((pos / 64 + 1) * 64))) [
        | inl r ↦ one_here mask pos n m_lt q h (ground arith)
        | inr r ↦ x.hits n (ground arith) k
      ];
      stops = x.stops;
    }

extend_run-Extends :
    (fuel : ℕ) (mask : List ℕ) (pos : ℕ)
    → IsWords mask
    → pos < length mask * 64
    → length mask ≤ pos / 64 + fuel
    → (end : ℕ) × (extend_run fuel mask pos ≡ ok end) × Extends mask pos end
unfolding extend_run zeros_of
extend_run-Extends zero mask pos words h enough = absurd (omega arith)
extend_run-Extends (suc fuel) mask pos words h enough =
    let (here, m_lt) = word-ok mask (pos / 64) words (omega arith) in
    let m : ℕ = get_or mask (pos / 64) 0 in
    let next : ℕ = (pos / 64 + 1) * 64 in
    elim (Bool-cases (zeros_of m (pos % 64) == 0)) [
      | inr q ↦ (_, rw (here, q) refl, stops_here mask pos (omega arith) m_lt q)
      | inl q ↦ elim (Bool-cases (leb (length mask) (next / 64))) [
        | inl r ↦ (
          next,
          rw (here, q, r) refl,
          later-Extends mask pos next m_lt q (record {
            after = omega arith;
            inside = omega arith;
            hits = λ n k l. absurd (omega arith);
            stops = inl (let last : length mask ≤ next / 64 = ground arith in omega arith);
          }),
        )
        | inr r ↦
            let more : next / 64 < length mask = ground arith in
            let (end, e, x) = extend_run-Extends fuel mask next words (omega arith) (omega arith) in
            (end, rw (here, q, r) e, later-Extends mask pos end m_lt q x)
      ]
    ]

-- What `next_true_run` is to find: no hit from `from` on, or the first run of hits.
unfoldable pub IsNextRun : List ℕ → ℕ → ℕ → Option (ℕ × ℕ) → Type 0
IsNextRun mask len from none = (n : ℕ) → from ≤ n → n < len → mask_bit mask n ≡ 0
IsNextRun mask len from (some (start, end)) =
    (from ≤ start)
    × (start < end)
    × (end ≤ len)
    × ((n : ℕ) → from ≤ n → n < start → mask_bit mask n ≡ 0)
    × ((n : ℕ) → start ≤ n → n < end → mask_bit mask n ≡ 1)
    × ((end ≡ len) ⊎ (mask_bit mask end ≡ 0))

run-IsNextRun :
    (mask : List ℕ) (len from start end : ℕ)
    → len ≤ length mask * 64
    → ((n : ℕ) → len ≤ n → mask_bit mask n ≡ 0)
    → Found mask from len (some start)
    → Extends mask start end
    → IsNextRun mask len from (some (start, min end len))
unfolding Found IsNextRun
run-IsNextRun mask len from start end covered padding (late, inside, is_set, below) x =
    let before : start < len = elim (Bool-cases (ltb start len)) [
      | inl r ↦ ground arith
      | inr r ↦ let z = padding start (ground arith) in absurd (omega arith)
    ] in
    let bounds = x.after in
    let apart : (start ≡ end → ⊥) = λ e. elim x.stops [
      | inl f ↦ omega arith
      | inr f ↦ let z = ap (mask_bit mask) e in omega arith
    ] in
    (
      late,
      ground arith,
      omega arith,
      below,
      λ n h k. x.hits n h (omega arith),
      elim (Bool-cases (leb len end)) [
        | inl r ↦ inl (ground arith)
        | inr r ↦ inr (
            ap (mask_bit mask) (let e : min end len ≡ end = ground arith in e)
            ∙ elim x.stops [ inl f ↦ absurd (ground arith) | inr f ↦ f ])
      ],
    )

nothing_left : (mask : List ℕ) (len from : ℕ) → len ≤ from → IsNextRun mask len from none
unfolding IsNextRun
nothing_left mask len from h = λ n k l. absurd (omega arith)

none-IsNextRun :
    (mask : List ℕ) (len from : ℕ) → Found mask from len none → IsNextRun mask len from none
unfolding IsNextRun Found
none-IsNextRun mask len from h = h

start-inside :
    (mask : List ℕ) (len from start : ℕ)
    → Found mask from len (some start)
    → start < length mask * 64
unfolding Found
start-inside mask len from start h = h.1

-- `next_true_run` returns, and what it returns is the first run of hits from `from` on: no hit is
-- before it, all its bits are hits, and it ends at `len` or at a bit that is not a hit; where it
-- returns none, there is no hit from `from` on.
-- The conditions: a mask of 64-bit words that covers `len` bits, with no bit set from `len` on.
pub next_true_run-IsNextRun :
    (mask : List ℕ) (len from : ℕ)
    → IsWords mask
    → len ≤ length mask * 64
    → ((n : ℕ) → len ≤ n → mask_bit mask n ≡ 0)
    → (run : Option (ℕ × ℕ)) × (next_true_run mask len from ≡ ok run) × IsNextRun mask len from run
unfolding next_true_run
next_true_run-IsNextRun mask len from words covered padding = elim (Bool-cases (leb len from)) [
  | inl q ↦ (none, rw q refl, nothing_left mask len from (ground arith))
  | inr q ↦
      let (found, e, spec) =
        find_start-Found (length mask) mask len from words (ground arith) covered (omega arith) in
      found_run found q e spec
]
  where
    found_run :
        (found : Option ℕ)
        → leb len from ≡ false
        → find_start (length mask) mask len from ≡ ok found
        → Found mask from len found
        → (run : Option (ℕ × ℕ)) × (next_true_run mask len from ≡ ok run)
          × IsNextRun mask len from run
    found_run none q e spec = (none, rw (q, e) refl, none-IsNextRun mask len from spec)
    found_run (some start) q e spec =
        let (end, e', x) =
          extend_run-Extends (length mask) mask start words (start-inside mask len from start spec)
            (omega arith) in
        (
          some (start, min end len),
          rw (q, e, e') refl,
          run-IsNextRun mask len from start end covered padding spec x,
        )
