-- ===== src/Core/Field/Scan/Limit.antt =====
-- The limit of a scan.
use mathlib.Core.Path.{subst}
use stkoe_data.Base.{
  ℕ, zero, suc, ◌+◌, ◌-◌, ◌≤◌, ◌≡◌, refl, sym, ap, ◌∙◌, List, [], ◌∷◌, length, get_elem?, Bool,
  true, false, Option, none, some, ok, ◌>>=◌, leb, ltb, if◌then◌else◌, arith, Bool-cases, inl, inr,
  >>=-eq-ok, ok-injective,
}
use stkoe_data.Core.Lookup.{Core}
use stkoe_data.Core.Ranges.{RowRange, end}
use stkoe_data.Core.Scanner.{total}
use stkoe_data.Core.Field.Eval.{Floats}
use stkoe_data.Core.Field.Open.{FieldHandle}
use stkoe_data.Core.Field.Runs.{next_true_run}
use stkoe_data.Core.Field.Scan.{
  FieldScanner, take_limited, advance, evaluate_hits, evaluate_range, evaluate_segment, take_run,
  advance_to, next_segment, next_in_mask, next,
}

-- What was found is within what is left of the limit, and is taken off it.
abbrev IsTaken : Option ℕ → RowRange → FieldScanner → Type 0
IsTaken left r s =
    (rem : ℕ) → left ≡ some rem → (r.length ≤ rem) × (s.remaining ≡ some (rem - r.length))

take_limited-IsTaken :
    (s : FieldScanner) (r : RowRange)
    → IsTaken s.remaining (take_limited s r).0 (take_limited s r).1
unfolding take_limited
take_limited-IsTaken s r rem e = elim (Bool-cases (leb rem r.length)) [
  | inl q ↦ rw (e, q) (omega arith, ap some (let z : 0 ≡ rem - rem = omega arith in z))
  | inr q ↦ rw (e, q) (ground arith, refl)
]

advance_to-remaining :
    (s : FieldScanner) (found : Option RowRange) (rest : FieldScanner)
    → rest.remaining ≡ s.remaining
    → (advance_to s found rest).remaining ≡ s.remaining
unfolding advance_to
advance_to-remaining s none rest h = refl
advance_to-remaining s (some range) rest h =
    chosen (ltb (if ltb s.row range.offset then range.offset else s.row) (end range))
  where
    chosen :
        (b : Bool)
        → (if b
            then record s { row = if ltb s.row range.offset then range.offset else s.row }
            else rest).remaining
          ≡ s.remaining
    chosen true = refl
    chosen false = h

advance-remaining : (fuel : ℕ) (s : FieldScanner) → (advance fuel s).remaining ≡ s.remaining
unfolding advance
advance-remaining zero s = refl
advance-remaining (suc fuel) s =
    advance_to-remaining s (get_elem? s.ranges s.range_index) _
      (advance-remaining fuel (record s { range_index = s.range_index + 1; row = 0 }))

module _ (fl : Floats) (h : FieldHandle) where
  evaluate_range-remaining :
      (s s' : FieldScanner) (rows : ℕ)
      → evaluate_range fl h s rows ≡ ok s'
      → s'.remaining ≡ s.remaining
  unfolding evaluate_range
  evaluate_range-remaining s s' rows e =
      let (hit, evaluated, e1) = >>=-eq-ok (evaluate_hits fl h s rows) _ e in
      ap (λ (t : FieldScanner). t.remaining) (sym (ok-injective e1))

  evaluate_segment-remaining :
      (s s' : FieldScanner) (found : Option RowRange)
      → evaluate_segment fl h s found ≡ ok s'
      → s'.remaining ≡ s.remaining
  unfolding evaluate_segment
  evaluate_segment-remaining s s' none e = cc
  evaluate_segment-remaining s s' (some range) e = evaluate_range-remaining s s' _ e

  next_segment-remaining :
      (s s' : FieldScanner) → next_segment fl h s ≡ ok s' → s'.remaining ≡ s.remaining
  unfolding next_segment
  next_segment-remaining s s' e =
      let s1 : FieldScanner =
        advance (suc (length s.ranges))
          (record s { row = s.row + s.mask_rows; mask_rows = 0; mask_pos = 0 }) in
      went_on s1 (get_elem? s1.ranges s1.range_index) s1.done e
      ∙ advance-remaining (suc (length s.ranges))
          (record s { row = s.row + s.mask_rows; mask_rows = 0; mask_pos = 0 })
    where
      went_on :
          (s1 : FieldScanner) (found : Option RowRange) (b : Bool)
          → (if b then ok s1 else evaluate_segment fl h s1 found) ≡ ok s'
          → s'.remaining ≡ s1.remaining
      went_on s1 found true e = ap (λ (t : FieldScanner). t.remaining) (sym (ok-injective e))
      went_on s1 found false e = evaluate_segment-remaining s1 s' found e

  -- What a call of `next` does with the limit.
  unfoldable Limits : FieldScanner → Option RowRange → FieldScanner → Type 0
  Limits s none s' = s'.remaining ≡ s.remaining
  Limits s (some r) s' = IsTaken s.remaining r s'

  unfoldable LimitsFound : FieldScanner → Option (RowRange × FieldScanner) → Type 0
  LimitsFound s none = Unit {0}
  LimitsFound s (some found) = IsTaken s.remaining found.0 found.1

  take_run-Limits : (s : FieldScanner) (run : Option (ℕ × ℕ)) → LimitsFound s (take_run fl h s run)
  unfolding take_run LimitsFound
  take_run-Limits s none = tt
  take_run-Limits s (some (start, stop)) =
      take_limited-IsTaken (record s { mask_pos = stop })
        (record { offset = s.row + start; length = stop - start })

  next_in_mask-Limits :
      (s : FieldScanner) (found : Option (RowRange × FieldScanner))
      → next_in_mask fl h s ≡ ok found
      → LimitsFound s found
  unfolding next_in_mask LimitsFound
  next_in_mask-Limits s found e = in_mask (ltb s.mask_pos s.mask_rows) e
    where
      in_mask :
          (b : Bool)
          → (if b
              then (next_true_run s.mask s.mask_rows s.mask_pos >>= λ run. ok (take_run fl h s run))
              else ok none)
            ≡ ok found
          → LimitsFound s found
      in_mask false e = subst (LimitsFound s) (ok-injective e) tt
      in_mask true e =
          let (run, searched, e1) = >>=-eq-ok (next_true_run s.mask s.mask_rows s.mask_pos) _ e in
          subst (LimitsFound s) (ok-injective e1) (take_run-Limits s run)

  Limits-ext :
      (s s1 : FieldScanner) (found : Option RowRange) (s' : FieldScanner)
      → s1.remaining ≡ s.remaining
      → Limits s1 found s'
      → Limits s found s'
  unfolding Limits
  Limits-ext s s1 none s' e l = l ∙ e
  Limits-ext s s1 (some r) s' e l = λ rem k. l rem (e ∙ k)

  -- What follows the search in the mask.
  unfoldable after_mask :
      FieldScanner
      → (FieldScanner → Core (Option RowRange × FieldScanner))
      → Option (RowRange × FieldScanner)
      → Core (Option RowRange × FieldScanner)
  after_mask s rest (some (range, s')) = ok (some range, s')
  after_mask s rest none = next_segment fl h s >>= rest

  after_mask-Limits :
      (s : FieldScanner) (rest : FieldScanner → Core (Option RowRange × FieldScanner))
      (hit : Option (RowRange × FieldScanner)) (found : Option RowRange) (s' : FieldScanner)
      → ((s1 : FieldScanner) → rest s1 ≡ ok (found, s') → Limits s1 found s')
      → LimitsFound s hit
      → after_mask s rest hit ≡ ok (found, s')
      → Limits s found s'
  unfolding after_mask LimitsFound Limits
  after_mask-Limits s rest (some (range, s1)) found s' later l e =
      subst (λ (r : Option RowRange × FieldScanner). Limits s r.0 r.1) (ok-injective e) l
  after_mask-Limits s rest none found s' later l e =
      let (s1, segment, e1) = >>=-eq-ok (next_segment fl h s) rest e in
      Limits-ext s s1 found s' (next_segment-remaining s s1 segment) (later s1 e1)

  next-Limits :
      (fuel : ℕ) (s : FieldScanner) (found : Option RowRange) (s' : FieldScanner)
      → next fl h fuel s ≡ ok (found, s')
      → Limits s found s'
  unfolding next Limits after_mask
  next-Limits zero s found s' e = cc
  next-Limits (suc fuel) s found s' e = round s.done (λ s1 k. next-Limits fuel s1 found s' k) e
    where
      round :
          (b : Bool)
          → ((s1 : FieldScanner) → next fl h fuel s1 ≡ ok (found, s') → Limits s1 found s')
          → (if b then ok (none, s) else (next_in_mask fl h s >>= after_mask s (next fl h fuel)))
            ≡ ok (found, s')
          → Limits s found s'
      round true later e =
          subst (λ (r : Option RowRange × FieldScanner). Limits s r.0 r.1) (ok-injective e) refl
      round false later e =
          let (hit, masked, e1) = >>=-eq-ok (next_in_mask fl h s) _ e in
          after_mask-Limits s (next fl h fuel) hit found s' later (next_in_mask-Limits s hit masked)
            e1

  -- The ranges of `n` calls, each of at most `rounds` rounds.
  unfoldable pub collect : ℕ → ℕ → FieldScanner → Core (List RowRange)
  unfolding next
  collect zero rounds s = ok []
  collect (suc n) rounds s = do
    (found, s') ← next fl h rounds s
    elim found [ none ↦ ok [] | some r ↦ collect n rounds s' >>= λ rest. ok (r ∷ rest) ]

  total-le_found :
      (s s' : FieldScanner) (found : Option RowRange) (tail' : Core (List RowRange)) (rem : ℕ)
      (ranges : List RowRange)
      → ((rem' : ℕ) (rs : List RowRange)
          → s'.remaining ≡ some rem'
          → tail' ≡ ok rs
          → total rs ≤ rem')
      → Limits s found s'
      → s.remaining ≡ some rem
      → (elim found as (λ f. Core (List RowRange)) [
        | none ↦ ok []
        | some r ↦ tail' >>= λ rest. ok (r ∷ rest)
      ])
        ≡ ok ranges
      → total ranges ≤ rem
  unfolding Limits total
  total-le_found s s' none tail' rem ranges later l left e =
      subst (λ rs. total rs ≤ rem) (ok-injective e) (omega arith)
  total-le_found s s' (some r) tail' rem ranges later l left e =
      let (rest, collected, e1) = >>=-eq-ok tail' _ e in
      let (small, taken) = l rem left in
      let few = later (rem - r.length) rest taken collected in
      subst (λ rs. total rs ≤ rem) (ok-injective e1) (omega arith)

-- However often a scanner is called, the ranges that it produces have no more rows together than
-- its limit, whatever the predicate and the field.
-- The conditions: the scanner has `rem` rows left, and the calls succeed.
pub total-collect-le :
    (fl : Floats) (h : FieldHandle) (n rounds : ℕ) (s : FieldScanner) (rem : ℕ)
    (ranges : List RowRange)
    → s.remaining ≡ some rem
    → collect fl h n rounds s ≡ ok ranges
    → total ranges ≤ rem
unfolding collect total
total-collect-le fl h zero rounds s rem ranges left e =
    subst (λ rs. total rs ≤ rem) (ok-injective e) (omega arith)
total-collect-le fl h (suc n) rounds s rem ranges left e =
    let ((found, s'), called, e1) = >>=-eq-ok (next fl h rounds s) _ e in
    total-le_found fl h s s' found (collect fl h n rounds s') rem ranges
      (λ rem' rs l k. total-collect-le fl h n rounds s' rem' rs l k)
      (next-Limits fl h rounds s found s' called) left e1
