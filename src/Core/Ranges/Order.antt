-- ===== src/Core/Ranges/Order.antt =====
-- What a list of ranges covers, and its order.
use stkoe_data.Base.{
  ℕ, ◌+◌, ◌^◌, ◌<◌, ◌≤◌, ◌≡◌, refl, ap, ◌∙◌, Bool, true, false, ◌||◌, All, arith, Bool-cases, inl,
  inr,
}
use stkoe_data.Base.{List, [], ◌∷◌}
use stkoe_data.Core.Ranges.{RowRange, end, contains, key_le, insert, sort_by_key}

-- The end of a range does not wrap around.
abbrev pub Fits : RowRange → Type 0
Fits r = r.offset + r.length < 2 ^ 64

pub end-Fits : (r : RowRange) → Fits r → end r ≡ r.offset + r.length
unfolding end
end-Fits r h = omega arith

-- Is `row` in one of the ranges?
unfoldable pub covers : List RowRange → ℕ → Bool
covers [] row = false
covers (r ∷ ranges) row = contains r row || covers ranges row

-- No range starts before the ranges that precede it.
unfoldable pub IsSorted : List RowRange → Type 0
IsSorted [] = Unit {0}
IsSorted (r ∷ ranges) = All (λ s. r.offset ≤ s.offset) ranges × IsSorted ranges

pub All-insert :
    (P : RowRange → Type 0) (r : RowRange) (ranges : List RowRange)
    → P r
    → All P ranges
    → All P (insert r ranges)
unfolding insert
All-insert P r [] p h = (p, tt)
All-insert P r (s ∷ ranges) p h = elim (Bool-cases (key_le r s)) [
  | inl q ↦ rw q (p, h)
  | inr q ↦ rw q (h.0, All-insert P r ranges p h.1)
]

pub All-sort_by_key :
    (P : RowRange → Type 0) (ranges : List RowRange) → All P ranges → All P (sort_by_key ranges)
unfolding sort_by_key
All-sort_by_key P [] h = tt
All-sort_by_key P (r ∷ ranges) h =
    All-insert P r (sort_by_key ranges) h.0 (All-sort_by_key P ranges h.1)

or_swap : (a b c : Bool) → (a || (b || c)) ≡ (b || (a || c))
or_swap true true c = refl
or_swap true false c = refl
or_swap false b c = refl

covers-insert :
    (r : RowRange) (ranges : List RowRange) (row : ℕ)
    → covers (insert r ranges) row ≡ (contains r row || covers ranges row)
unfolding covers insert
covers-insert r [] row = refl
covers-insert r (s ∷ ranges) row = elim (Bool-cases (key_le r s)) [
  | inl q ↦ rw q refl
  | inr q ↦
      rw (q, covers-insert r ranges row)
        (or_swap (contains s row) (contains r row) (covers ranges row))
]

pub covers-sort_by_key :
    (ranges : List RowRange) (row : ℕ) → covers (sort_by_key ranges) row ≡ covers ranges row
unfolding covers sort_by_key
covers-sort_by_key [] row = refl
covers-sort_by_key (r ∷ ranges) row =
    covers-insert r (sort_by_key ranges) row
    ∙ ap (λ b. contains r row || b) (covers-sort_by_key ranges row)

All-weaken :
    (a b : ℕ) (ranges : List RowRange)
    → a ≤ b
    → All (λ (s : RowRange). b ≤ s.offset) ranges
    → All (λ (s : RowRange). a ≤ s.offset) ranges
All-weaken a b [] h all = tt
All-weaken a b (s ∷ ranges) h all = (omega (arith, all.0), All-weaken a b ranges h all.1)

key_le-true : (r s : RowRange) → key_le r s ≡ true → r.offset ≤ s.offset
unfolding key_le
key_le-true r s h = ground arith

key_le-false : (r s : RowRange) → key_le r s ≡ false → s.offset ≤ r.offset
unfolding key_le
key_le-false r s h = ground arith

insert-IsSorted :
    (r : RowRange) (ranges : List RowRange) → IsSorted ranges → IsSorted (insert r ranges)
unfolding insert IsSorted
insert-IsSorted r [] h = (tt, tt)
insert-IsSorted r (s ∷ ranges) h = elim (Bool-cases (key_le r s)) [
  | inl q ↦
      rw q ((key_le-true r s q, All-weaken r.offset s.offset ranges (key_le-true r s q) h.0), h)
  | inr q ↦ rw q (
    All-insert (λ t. s.offset ≤ t.offset) r ranges (key_le-false r s q) h.0,
    insert-IsSorted r ranges h.1,
  )
]

pub sort_by_key-IsSorted : (ranges : List RowRange) → IsSorted (sort_by_key ranges)
unfolding sort_by_key IsSorted
sort_by_key-IsSorted [] = tt
sort_by_key-IsSorted (r ∷ ranges) = insert-IsSorted r _ (sort_by_key-IsSorted ranges)
