-- ===== src/Core/Field/Eval/Total.antt =====
-- A predicate all comparisons of which are computed.
use stkoe_data.Base.{ℕ, ◌≡◌, refl, bit_xor, List, map, replicate, ok, ◌>>=◌, Bool-cases, inl, inr}
use stkoe_data.Format.DataType.{DataType}
use stkoe_data.Core.Lookup.{Core}
use stkoe_data.Core.Predicate.{Predicate, all_of, any_of, negation, cmp, Predicates, nil, cons}
use stkoe_data.Core.Field.Eval.{
  Floats, and_bytes, or_bytes, all_zero, eval_cmp_bytes, eval_predicate_bytes, eval_and, eval_or,
}
use stkoe_data.Core.Field.Eval.Rows.{Decides, holds_in_row, eval_predicate_bytes-rows}

abbrev Computed : Core (List ℕ) → Type 0
Computed out = (mask : List ℕ) × (out ≡ ok mask)

bind-Computed :
    (out : Core (List ℕ)) (next : List ℕ → Core (List ℕ))
    → Computed out
    → ((c : List ℕ) → Computed (next c))
    → Computed (out >>= next)
bind-Computed out next (c, e) f = let (mask, k) = f c in (mask, rw e k)

module _ (fl : Floats) (data_type : DataType) (values : List ℕ) (rows : ℕ) where
  unfoldable mutual
    -- Every comparison fits the type of the column.
    pub IsCompatible : Predicate → Type 0
    IsCompatible (all_of children) = AreCompatible children
    IsCompatible (any_of children) = AreCompatible children
    IsCompatible (negation inner) = IsCompatible inner
    IsCompatible (cmp field op value) = Computed (eval_cmp_bytes fl data_type values op value rows)

    pub AreCompatible : Predicates → Type 0
    AreCompatible nil = Unit {0}
    AreCompatible (cons p children) = IsCompatible p × AreCompatible children

  mutual
    unfolding eval_predicate_bytes eval_and eval_or IsCompatible AreCompatible

    predicate-Computed :
        (p : Predicate)
        → IsCompatible p
        → Computed (eval_predicate_bytes fl data_type values rows p)
    predicate-Computed (all_of children) h = all-Computed children (replicate rows 1) h
    predicate-Computed (any_of children) h = any-Computed children (replicate rows 0) h
    predicate-Computed (negation inner) h =
        bind-Computed _ _ (predicate-Computed inner h) (λ c. (map (λ b. bit_xor b 1) c, refl))
    predicate-Computed (cmp field op value) h = h

    all-Computed :
        (ps : Predicates) (out : List ℕ)
        → AreCompatible ps
        → Computed (eval_and fl data_type values rows ps out)
    all-Computed nil out h = (out, refl)
    all-Computed (cons p ps) out h = bind-Computed _ _ (predicate-Computed p h.0) (λ c.
        elim (Bool-cases (all_zero (and_bytes out c))) [
          | inl q ↦ rw q (and_bytes out c, refl)
          | inr q ↦ rw q (all-Computed ps (and_bytes out c) h.1)
        ])

    any-Computed :
        (ps : Predicates) (out : List ℕ)
        → AreCompatible ps
        → Computed (eval_or fl data_type values rows ps out)
    any-Computed nil out h = (out, refl)
    any-Computed (cons p ps) out h =
        bind-Computed _ _ (predicate-Computed p h.0) (λ c. any-Computed ps (or_bytes out c) h.1)

-- A predicate is computed when each of its comparisons is, and then the byte of each row of its
-- mask is 1 where the predicate holds in that row and 0 where it does not, although `And` leaves
-- out children when no row is left.
-- The condition: each comparison is computed on the column.
pub eval_predicate_bytes-Decides :
    (fl : Floats) (data_type : DataType) (values : List ℕ) (rows : ℕ) (p : Predicate)
    → IsCompatible fl data_type values rows p
    → (mask : List ℕ) × (eval_predicate_bytes fl data_type values rows p ≡ ok mask)
      × Decides fl data_type values rows (holds_in_row fl data_type values rows p) mask
eval_predicate_bytes-Decides fl data_type values rows p h =
    let (mask, e) = predicate-Computed fl data_type values rows p h in
    (mask, e, eval_predicate_bytes-rows fl data_type values rows p mask e)
