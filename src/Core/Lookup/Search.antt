-- ===== src/Core/Lookup/Search.antt =====
-- The binary search on the time axis.
use stkoe_data.Base.{
  ℕ, zero, suc, ◌+◌, ◌-◌, ◌/◌, ◌%◌, ◌^◌, ◌≤◌, ◌<◌, ◌≡◌, refl, ap, ◌∙◌, ok, ltb, arith,
}
use stkoe_data.Base.{Bool-cases, inl, inr}
use stkoe_data.Core.Lookup.{MetaHandle, time_at, lower_bound_loop, axis_lower_bound}

-- The time axis of a META file: readable at every index, and ascending.
pub record IsAxis (h : MetaHandle) (times : ℕ → ℕ) : Type 0 where
  pub count_fits : h.header.time_count < 2 ^ 32
  pub readable : (i : ℕ) → i < h.header.time_count → time_at h i ≡ ok (times i)
  pub ascending : (i j : ℕ) → i ≤ j → j < h.header.time_count → times i ≤ times j

-- `bound` is the first index whose time is not below `v`.
pub record IsLowerBound (times : ℕ → ℕ) (count v bound : ℕ) : Type 0 where
  pub inside : bound ≤ count
  pub below : (i : ℕ) → i < bound → times i < v
  pub above : (i : ℕ) → bound ≤ i → i < count → v ≤ times i

module _ (h : MetaHandle) (times : ℕ → ℕ) (axis : IsAxis h times) (v : ℕ) where
  found :
      (fuel lo hi : ℕ)
      → hi - lo ≤ fuel
      → lo ≤ hi
      → hi ≤ h.header.time_count
      → ((i : ℕ) → i < lo → times i < v)
      → ((i : ℕ) → hi ≤ i → i < h.header.time_count → v ≤ times i)
      → (bound : ℕ) × (lower_bound_loop fuel h v lo hi ≡ ok bound)
        × IsLowerBound times h.header.time_count v bound
  unfolding lower_bound_loop
  found zero lo hi f o b below above = (
    lo,
    refl,
    record { inside = omega arith; below = below; above = λ i p q. above i (omega arith) q },
  )
  found (suc fuel) lo hi f o b below above = elim (Bool-cases (ltb lo hi)) [
    | inr q ↦ (
      lo,
      rw q refl,
      record { inside = omega arith; below = below; above = λ i p r. above i (ground arith) r },
    )
    | inl q ↦
        let mid : ℕ = (lo + hi) / 2 in
        let between : lo < hi = ground arith in
        let read : time_at h (mid % 2 ^ 32) ≡ ok (times mid) =
          ap (time_at h) (let e : mid % 2 ^ 32 ≡ mid = omega (arith, axis.count_fits) in e)
          ∙ axis.readable mid (omega arith) in
        elim (Bool-cases (ltb (times mid) v)) [
          | inl r ↦
              let (bound, e, is_bound) =
                found fuel (mid + 1) hi (omega arith) (omega arith) b
                  (λ i p. let a = axis.ascending i mid (omega arith) (omega arith) in ground arith)
                  above in
              (bound, rw (q, read, r) e, is_bound)
          | inr r ↦
              let (bound, e, is_bound) =
                found fuel lo mid (omega arith) (omega arith) (omega arith) below
                  (λ i p s. let a = axis.ascending mid i p s in ground arith) in
              (bound, rw (q, read, r) e, is_bound)
        ]
  ]

  -- The search on an ascending time axis returns, and what it returns is the first index whose
  -- time is not below `v`, or the number of times when there is none.
  -- The conditions: the axis is ascending, readable and shorter than 2^32.
  pub axis_lower_bound-IsLowerBound :
      (bound : ℕ) × (axis_lower_bound h v ≡ ok bound)
      × IsLowerBound times h.header.time_count v bound
  unfolding axis_lower_bound
  axis_lower_bound-IsLowerBound =
      found h.header.time_count 0 h.header.time_count (omega arith) (omega arith) (omega arith)
        (λ i p. absurd (omega arith)) (λ i p q. absurd (omega arith))
