-- ===== src/Core/Chunks.antt =====
-- `compute_chunk_boundaries` of crates/splayed-core/src/field_file.rs: how rows are cut into chunks.
use stkoe_data.Base.{
  ℕ, zero, suc, ◌+◌, ◌-◌, ◌≤◌, ◌<◌, ◌≡◌, refl, ap, ◌∙◌, min, Bool, true, false, ◌&&◌, List, [], ◌∷◌,
  Option, none, some, ok, guard, ◌>>◌, ◌==◌, ltb, if◌then◌else◌, arith, Bool-cases, inl, inr,
  >>=-eq-ok, ok-injective,
}
use mathlib.Core.Path.{subst}
use stkoe_data.Core.Lookup.{Core, invalid}
use stkoe_data.Core.IndexScan.{sort_ids, insert_id, dedup}

abbrev pub create_chunk_rows : ℕ
create_chunk_rows = 8192

-- `list.first() != Some(&0)` is an error.
unfoldable pub starts_at_zero : List ℕ → Bool
starts_at_zero [] = false
starts_at_zero (o ∷ list) = o == 0

unfoldable pub is_ascending : List ℕ → Bool
is_ascending [] = true
is_ascending (a ∷ []) = true
is_ascending (a ∷ (b ∷ list)) = ltb a b && is_ascending (b ∷ list)

unfoldable pub all_below : ℕ → List ℕ → Bool
all_below rows_total [] = true
all_below rows_total (o ∷ list) = ltb o rows_total && all_below rows_total list

-- The windows of two offsets, and the last offset with the end.
unfoldable pub cut : ℕ → List ℕ → List (ℕ × ℕ)
cut rows_total [] = []
cut rows_total (lo ∷ []) = if ltb lo rows_total then (lo, rows_total) ∷ [] else []
cut rows_total (lo ∷ (hi ∷ list)) = (lo, hi) ∷ cut rows_total (hi ∷ list)

-- `(0..rows_total).step_by(CREATE_CHUNK_ROWS)` from `o` on. A round passes a row at least.
unfoldable pub uniform : ℕ → ℕ → ℕ → List (ℕ × ℕ)
uniform zero rows_total o = []
uniform (suc fuel) rows_total o =
    let rest = uniform fuel rows_total (o + create_chunk_rows) in
    if ltb o rows_total then (o, min (o + create_chunk_rows) rows_total) ∷ rest else []

unfoldable pub compute_chunk_boundaries : ℕ → Option (List ℕ) → Core (List (ℕ × ℕ))
unfolding starts_at_zero is_ascending all_below cut uniform sort_ids dedup
compute_chunk_boundaries rows_total none = ok (uniform rows_total rows_total 0)
compute_chunk_boundaries rows_total (some offsets) = do
  guard (starts_at_zero offsets) invalid
  let list = dedup (sort_ids offsets)
  guard (is_ascending list && all_below rows_total list) invalid
  ok (cut rows_total list)

-- The ranges follow each other without a gap from `start` to `stop`, and none is empty.
unfoldable pub IsTiling : ℕ → ℕ → List (ℕ × ℕ) → Type 0
IsTiling start stop [] = start ≡ stop
IsTiling start stop (range ∷ ranges) =
    (range.0 ≡ start) × (range.0 < range.1) × IsTiling range.1 stop ranges

uniform-IsTiling :
    (fuel rows_total o : ℕ)
    → rows_total - o ≤ fuel
    → IsTiling (min o rows_total) rows_total (uniform fuel rows_total o)
unfolding uniform IsTiling
uniform-IsTiling zero rows_total o h = omega arith
uniform-IsTiling (suc fuel) rows_total o h = elim (Bool-cases (ltb o rows_total)) [
  | inl q ↦ rw q (
    ground arith,
    ground arith,
    uniform-IsTiling fuel rows_total (o + create_chunk_rows) (omega arith),
  )
  | inr q ↦ rw q (ground arith)
]

cut-IsTiling :
    (rows_total lo : ℕ) (list : List ℕ)
    → is_ascending (lo ∷ list) ≡ true
    → all_below rows_total (lo ∷ list) ≡ true
    → IsTiling lo rows_total (cut rows_total (lo ∷ list))
unfolding cut is_ascending all_below IsTiling
cut-IsTiling rows_total lo [] h k = elim (Bool-cases (ltb lo rows_total)) [
  | inl q ↦ rw q (refl, ground arith, refl)
  | inr q ↦ absurd (ground arith)
]
cut-IsTiling rows_total lo (hi ∷ list) h k =
    (refl, ground arith, cut-IsTiling rows_total hi list (ground arith) (ground arith))

insert_id-zero : (ids : List ℕ) → insert_id 0 ids ≡ 0 ∷ ids
unfolding insert_id
insert_id-zero [] = refl
insert_id-zero (e ∷ ids) = ground arith

dedup-cons : (a : ℕ) (ids : List ℕ) → (rest : List ℕ) × (dedup (a ∷ ids) ≡ a ∷ rest)
unfolding dedup
dedup-cons a [] = ([], refl)
dedup-cons a (b ∷ ids) = elim (Bool-cases (a == b)) [
  | inr q ↦ (dedup (b ∷ ids), rw q refl)
  | inl q ↦
      let (rest, e) = dedup-cons b ids in
      (rest, rw (q, e) (ap (λ c. c ∷ rest) (let p : b ≡ a = ground arith in p)))
]

sorted_offsets :
    (offsets : List ℕ)
    → starts_at_zero offsets ≡ true
    → (rest : List ℕ) × (dedup (sort_ids offsets) ≡ 0 ∷ rest)
unfolding starts_at_zero sort_ids
sorted_offsets [] h = absurd (ground arith)
sorted_offsets (o ∷ offsets) h =
    let (rest, e) = dedup-cons 0 (sort_ids offsets) in
    (
      rest,
      ap (λ c. dedup (insert_id c (sort_ids offsets))) (let p : o ≡ 0 = ground arith in p)
          ∙ (ap dedup (insert_id-zero (sort_ids offsets)) ∙ e),
    )

-- The chunks that are computed, from given offsets or from none, follow each other without a gap
-- from row 0 to the last, and none is empty.
pub compute_chunk_boundaries-IsTiling :
    (rows_total : ℕ) (chunk_offsets : Option (List ℕ)) (ranges : List (ℕ × ℕ))
    → compute_chunk_boundaries rows_total chunk_offsets ≡ ok ranges
    → IsTiling 0 rows_total ranges
unfolding compute_chunk_boundaries
compute_chunk_boundaries-IsTiling rows_total none ranges e =
    subst (IsTiling 0 rows_total) (ok-injective e) (
      subst (λ s. IsTiling s rows_total (uniform rows_total rows_total 0))
        (let p : min 0 rows_total ≡ 0 = omega arith in p)
        (uniform-IsTiling rows_total rows_total 0 (omega arith)))
compute_chunk_boundaries-IsTiling rows_total (some offsets) ranges e =
    let (u, first, e1) = >>=-eq-ok (guard (starts_at_zero offsets) invalid) _ e in
    let (rest, list) = sorted_offsets offsets (ground arith) in
    let e2 =
      subst
        (λ l.
          (guard (is_ascending l && all_below rows_total l) invalid >> ok (cut rows_total l))
          ≡ ok ranges)
        list e1 in
    let (v, second, e3) =
      >>=-eq-ok (guard (is_ascending (0 ∷ rest) && all_below rows_total (0 ∷ rest)) invalid) _ e2 in
    subst (IsTiling 0 rows_total) (ok-injective e3)
      (cut-IsTiling rows_total 0 rest (ground arith) (ground arith))
