-- ===== src/Core/Scanner.antt =====
-- `IndexScanner` of crates/splayed-core/src/meta_file.rs: row ranges one by one, up to a limit.
use stkoe_data.Base.{
  ℕ, zero, suc, ◌+◌, ◌-◌, ◌≤◌, ◌≡◌, refl, ap, min, List, [], ◌∷◌, get_elem?, Option, none, some,
}
use stkoe_data.Base.{ltb, if◌then◌else◌, arith, Option-cases, inl, inr}
use stkoe_data.Core.Ranges.{RowRange}

pub record IndexScanner : Type 0 where
  pub ranges : List RowRange
  pub pos : ℕ
  pub limit : Option ℕ

-- The range, cut off at what the limit leaves.
unfoldable pub within_limit : Option ℕ → RowRange → RowRange
within_limit none r = r
within_limit (some rem) r =
    let taken = min r.length rem in
    if ltb taken r.length then record { offset = r.offset; length = taken } else r

unfoldable pub limit_after : Option ℕ → RowRange → Option ℕ
limit_after none r = none
limit_after (some rem) r = some (rem - min r.length rem)

-- The range that is produced, and the scanner behind it.
unfoldable pub next : IndexScanner → Option RowRange × IndexScanner
unfolding within_limit limit_after
next s = elim (get_elem? s.ranges s.pos) [
  | none ↦ (none, s)
  | some r ↦ (
    some (within_limit s.limit r),
    record { ranges = s.ranges; pos = s.pos + 1; limit = limit_after s.limit r },
  )
]

cons_found : Option RowRange → List RowRange → List RowRange
cons_found none rest = []
cons_found (some r) rest = r ∷ rest

-- What is produced in `n` calls.
pub produced : ℕ → IndexScanner → List RowRange
produced zero s = []
produced (suc n) s = cons_found (next s).0 (produced n (next s).1)

unfoldable pub total : List RowRange → ℕ
total [] = 0
total (r ∷ ranges) = r.length + total ranges

step-le : (rem : ℕ) (r : RowRange) → (within_limit (some rem) r).length ≡ min r.length rem
unfolding within_limit
step-le rem r = ground arith

abbrev limited : List RowRange → ℕ → ℕ → IndexScanner
limited ranges pos rem = record { ranges = ranges; pos = pos; limit = some rem }

next-some :
    (ranges : List RowRange) (pos rem : ℕ) (r : RowRange)
    → get_elem? ranges pos ≡ some r
    → next (limited ranges pos rem)
      ≡ (some (within_limit (some rem) r), limited ranges (pos + 1) (rem - min r.length rem))
unfolding next limit_after
next-some ranges pos rem r q = rw (q, next) refl

next-none :
    (ranges : List RowRange) (pos rem : ℕ)
    → get_elem? ranges pos ≡ none
    → next (limited ranges pos rem) ≡ (none, limited ranges pos rem)
unfolding next
next-none ranges pos rem q = rw (q, next) refl

produced_zero : (s : IndexScanner) → produced 0 s ≡ []
unfolding produced
produced_zero s = refl

produced_step :
    (n : ℕ) (s s' : IndexScanner) (found : Option RowRange)
    → next s ≡ (found, s')
    → produced (suc n) s ≡ cons_found found (produced n s')
unfolding produced
produced_step n s s' found e = ap (λ p. cons_found p.0 (produced n p.1)) e

-- However often a scanner is called, it does not produce more rows than its limit.
pub total-produced-le :
    (n : ℕ) (ranges : List RowRange) (pos rem : ℕ)
    → total (produced n (record { ranges = ranges; pos = pos; limit = some rem })) ≤ rem
unfolding total cons_found
total-produced-le zero ranges pos rem = rw (produced_zero (limited ranges pos rem)) (omega arith)
total-produced-le (suc n) ranges pos rem = elim (Option-cases (get_elem? ranges pos)) [
  | inl q ↦
      rw (produced_step n (limited ranges pos rem) _ _ (next-none ranges pos rem q)) (omega arith)
  | inr (r, q) ↦
      rw (produced_step n (limited ranges pos rem) _ _ (next-some ranges pos rem r q)) (
        omega (arith, step-le rem r, total-produced-le n ranges (pos + 1) (rem - min r.length rem)))
]
