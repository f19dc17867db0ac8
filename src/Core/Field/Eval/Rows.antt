-- ===== src/Core/Field/Eval/Rows.antt =====
-- A predicate, row by row.
use stkoe_data.Base.{
  ℕ, ◌≤◌, ◌<◌, ◌≡◌, refl, sym, ap, ap₂, ◌∙◌, bit_and, bit_or, bit_xor, Bool, true, false, not, ◌&&◌,
  ◌||◌, List, map, length, replicate, ok, err, panic, ◌==◌, arith, Bool-cases, inl, inr, get_or,
  length-replicate, >>=-eq-ok, ok-injective,
}
use mathlib.Core.Path.{subst}
use stkoe_data.Format.DataType.{DataType}
use stkoe_data.Core.Lookup.{Core}
use stkoe_data.Core.Predicate.{
  CmpOp, Scalar, Predicate, all_of, any_of, negation, cmp, Predicates, nil, cons,
}
use stkoe_data.Core.Field.Eval.{
  Floats, as_u8, and_bytes, or_bytes, all_zero, eval_cmp_bytes, eval_predicate_bytes, eval_and,
  eval_or,
}
use stkoe_data.Core.Field.Eval.Masks.{
  eval_cmp_bytes-AllMask, length-and_bytes, length-or_bytes, get_or-and_bytes, get_or-or_bytes,
  get_or-map, length-map, get_or-replicate, all_zero-get_or, and_as_u8, or_as_u8, not-as_u8,
}

-- Is row `i` set in a mask that was computed?
unfoldable pub is_hit : Core (List ℕ) → ℕ → Bool
is_hit (ok mask) i = get_or mask i 0 == 1
is_hit (err e) i = false
is_hit panic i = false

module _ (fl : Floats) (data_type : DataType) (values : List ℕ) (rows : ℕ) where
  mutual
    unfolding eval_cmp_bytes is_hit

    -- Does the predicate hold in row `i`, by the values of its comparisons in that row?
    pub holds_in_row : Predicate → ℕ → Bool
    holds_in_row (all_of children) i = all_hold children i
    holds_in_row (any_of children) i = any_holds children i
    holds_in_row (negation inner) i = not (holds_in_row inner i)
    holds_in_row (cmp field op value) i =
        is_hit (eval_cmp_bytes fl data_type values op value rows) i

    pub all_hold : Predicates → ℕ → Bool
    all_hold nil i = true
    all_hold (cons p children) i = holds_in_row p i && all_hold children i

    pub any_holds : Predicates → ℕ → Bool
    any_holds nil i = false
    any_holds (cons p children) i = holds_in_row p i || any_holds children i

  -- What is to be shown of a computed mask.
  pub record Decides (f : ℕ → Bool) (mask : List ℕ) : Type 0 where
    pub sized : length mask ≡ rows
    pub rows_decided : (i : ℕ) → i < rows → get_or mask i 0 ≡ as_u8 (f i)

as_u8-== : (b : ℕ) → b ≤ 1 → b ≡ as_u8 (b == 1)
as_u8-== b h = ground arith

module _ (fl : Floats) (data_type : DataType) (values : List ℕ) (rows : ℕ) where
  abbrev Row : (ℕ → Bool) → List ℕ → Type 0
  Row = Decides fl data_type values rows

  cmp-Decides :
      (op : CmpOp) (value : Scalar) (mask : List ℕ)
      → eval_cmp_bytes fl data_type values op value rows ≡ ok mask
      → Row (λ i. is_hit (eval_cmp_bytes fl data_type values op value rows) i) mask
  unfolding is_hit
  cmp-Decides op value mask e =
      let (sized, bits) = eval_cmp_bytes-AllMask fl data_type values op value rows mask e in
      rw e (record { sized = sized; rows_decided = λ i h. as_u8-== (get_or mask i 0) (bits i) })

  not-Decides :
      (f : ℕ → Bool) (c : List ℕ) → Row f c → Row (λ i. not (f i)) (map (λ b. bit_xor b 1) c)
  not-Decides f c d = record {
    sized = length-map (λ b. bit_xor b 1) c ∙ d.sized;
    rows_decided = λ i h.
        get_or-map (λ b. bit_xor b 1) c i (omega (arith, d.sized))
        ∙ (ap (λ b. bit_xor b 1) (d.rows_decided i h) ∙ not-as_u8 (f i));
  }

  and-Decides :
      (f g : ℕ → Bool) (out c : List ℕ)
      → Row f out
      → Row g c
      → Row (λ i. f i && g i) (and_bytes out c)
  and-Decides f g out c d k = record {
    sized = length-and_bytes out c ∙ d.sized;
    rows_decided = λ i h.
        get_or-and_bytes out c i (omega (arith, d.sized)) (d.sized ∙ sym k.sized)
        ∙ (ap₂ bit_and (d.rows_decided i h) (k.rows_decided i h) ∙ and_as_u8 (f i) (g i));
  }

  or-Decides :
      (f g : ℕ → Bool) (out c : List ℕ)
      → Row f out
      → Row g c
      → Row (λ i. f i || g i) (or_bytes out c)
  or-Decides f g out c d k = record {
    sized = length-or_bytes out c ∙ d.sized;
    rows_decided = λ i h.
        get_or-or_bytes out c i (omega (arith, d.sized)) (d.sized ∙ sym k.sized)
        ∙ (ap₂ bit_or (d.rows_decided i h) (k.rows_decided i h) ∙ or_as_u8 (f i) (g i));
  }

  -- No row is left: the other children do not matter.
  none_left :
      (f g : ℕ → Bool) (out : List ℕ) → Row f out → all_zero out ≡ true → Row (λ i. f i && g i) out
  none_left f g out d z = record {
    sized = d.sized;
    rows_decided = λ i h.
        let e : as_u8 (f i) ≡ 0 = sym (d.rows_decided i h) ∙ all_zero-get_or out i z in
        all_zero-get_or out i z ∙ (sym (off (f i) (g i) e));
  }
    where
      off : (a b : Bool) → as_u8 a ≡ 0 → as_u8 (a && b) ≡ 0
      off false b e = refl
      off true b e = absurd (omega arith)

  Decides_ext : (f g : ℕ → Bool) (mask : List ℕ) → ((i : ℕ) → f i ≡ g i) → Row f mask → Row g mask
  Decides_ext f g mask e d = record {
    sized = d.sized;
    rows_decided = λ i h. d.rows_decided i h ∙ ap as_u8 (e i);
  }

  and_true : (a : Bool) → (a && true) ≡ a
  and_true true = refl
  and_true false = refl

  or_false : (a : Bool) → (a || false) ≡ a
  or_false true = refl
  or_false false = refl

  and_assoc : (a b c : Bool) → ((a && b) && c) ≡ (a && (b && c))
  and_assoc true b c = refl
  and_assoc false b c = refl

  or_assoc : (a b c : Bool) → ((a || b) || c) ≡ (a || (b || c))
  or_assoc true b c = refl
  or_assoc false b c = refl

  unfoldable after_and : Predicates → List ℕ → Core (List ℕ)
  after_and ps out = elim (all_zero out) [
    | true ↦ ok out
    | false ↦ eval_and fl data_type values rows ps out
  ]

  stopped :
      (ps : Predicates) (out mask : List ℕ)
      → all_zero out ≡ true
      → after_and ps out ≡ ok mask
      → ◌≡◌ {A = Core (List ℕ)} (ok out) (ok mask)
  unfolding after_and
  stopped ps out mask q e = cc

  went_on :
      (ps : Predicates) (out mask : List ℕ)
      → all_zero out ≡ false
      → after_and ps out ≡ ok mask
      → eval_and fl data_type values rows ps out ≡ ok mask
  unfolding after_and
  went_on ps out mask q e = cc

  mutual
    unfolding eval_predicate_bytes holds_in_row eval_and eval_or all_hold any_holds after_and

    predicate-Decides :
        (p : Predicate) (mask : List ℕ)
        → eval_predicate_bytes fl data_type values rows p ≡ ok mask
        → Row (holds_in_row fl data_type values rows p) mask
    predicate-Decides (all_of children) mask e =
        all-Decides children (λ i. true) (replicate rows 1) mask
          (record {
            sized = length-replicate rows 1;
            rows_decided = λ i h. get_or-replicate rows 1 i h;
          })
          e
    predicate-Decides (any_of children) mask e =
        any-Decides children (λ i. false) (replicate rows 0) mask
          (record {
            sized = length-replicate rows 0;
            rows_decided = λ i h. get_or-replicate rows 0 i h;
          })
          e
    predicate-Decides (negation inner) mask e =
        let (c, inner', e') = >>=-eq-ok (eval_predicate_bytes fl data_type values rows inner) _ e in
        subst (Row (holds_in_row fl data_type values rows (negation inner))) (ok-injective e') (
          not-Decides (holds_in_row fl data_type values rows inner) c
            (predicate-Decides inner c inner'))
    predicate-Decides (cmp field op value) mask e = cmp-Decides op value mask e

    all-Decides :
        (ps : Predicates) (f : ℕ → Bool) (out mask : List ℕ)
        → Row f out
        → eval_and fl data_type values rows ps out ≡ ok mask
        → Row (λ i. f i && all_hold fl data_type values rows ps i) mask
    all-Decides nil f out mask d e =
        subst (Row (λ i. f i && true)) (ok-injective e)
          (Decides_ext f _ out (λ i. sym (and_true (f i))) d)
    all-Decides (cons p ps) f out mask d e =
        let (c, first, e') = >>=-eq-ok (eval_predicate_bytes fl data_type values rows p) _ e in
        let both =
          and-Decides f (holds_in_row fl data_type values rows p) out c d
            (predicate-Decides p c first) in
        Decides_ext
          (λ i.
            (f i && holds_in_row fl data_type values rows p i)
            && all_hold fl data_type values rows ps i)
          _ mask (λ i. and_assoc (f i) _ _)
          (elim (Bool-cases (all_zero (and_bytes out c))) [
            | inl q ↦
                subst (Row _) (ok-injective (stopped ps (and_bytes out c) mask q e'))
                  (none_left _ _ (and_bytes out c) both q)
            | inr q ↦
                all-Decides ps _ (and_bytes out c) mask both
                  (went_on ps (and_bytes out c) mask q e')
          ])

    any-Decides :
        (ps : Predicates) (f : ℕ → Bool) (out mask : List ℕ)
        → Row f out
        → eval_or fl data_type values rows ps out ≡ ok mask
        → Row (λ i. f i || any_holds fl data_type values rows ps i) mask
    any-Decides nil f out mask d e =
        subst (Row (λ i. f i || false)) (ok-injective e)
          (Decides_ext f _ out (λ i. sym (or_false (f i))) d)
    any-Decides (cons p ps) f out mask d e =
        let (c, first, e') = >>=-eq-ok (eval_predicate_bytes fl data_type values rows p) _ e in
        Decides_ext _ _ mask
          (λ i.
            or_assoc (f i) (holds_in_row fl data_type values rows p i)
              (any_holds fl data_type values rows ps i))
          (any-Decides ps (λ i. f i || holds_in_row fl data_type values rows p i) (or_bytes out c)
            mask
            (or-Decides f (holds_in_row fl data_type values rows p) out c d
              (predicate-Decides p c first))
            e')

-- In the mask of a predicate, the byte of each row is 1 when the predicate holds in that row and 0
-- when it does not, `And` being decided by all children, also by those that the loop leaves out.
-- The condition: the mask is computed.
pub eval_predicate_bytes-rows :
    (fl : Floats) (data_type : DataType) (values : List ℕ) (rows : ℕ) (p : Predicate)
    (mask : List ℕ)
    → eval_predicate_bytes fl data_type values rows p ≡ ok mask
    → Decides fl data_type values rows (holds_in_row fl data_type values rows p) mask
eval_predicate_bytes-rows fl data_type values rows p mask e =
    predicate-Decides fl data_type values rows p mask e
