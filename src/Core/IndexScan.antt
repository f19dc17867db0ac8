-- ===== src/Core/IndexScan.antt =====
-- The scan of the symbol index of crates/splayed-core/src/meta_file.rs: a predicate becomes a set
-- of symbols and a window of times, and these become row ranges. `is_utf8` is the test of
-- `str::from_utf8`, `float_as_u64` the cast of a float.
pub mod Overlap
use Prim.Native.Nat.{Ordering, compare}
use stkoe_data.Base.{
  ℕ, zero, suc, ◌+◌, ◌-◌, ◌*◌, ◌/◌, ◌%◌, ◌^◌, min, max, List, [], ◌∷◌, ◌++◌, length, take, drop,
  from_le,
}
use stkoe_data.Base.{
  Bool, true, false, ◌&&◌, Option, none, some, ok, err, panic, guard, ◌>>=◌, ◌>>◌, ◌==◌, leb, ltb,
  if◌then◌else◌,
}
use stkoe_data.Core.Ranges.{RowRange, end, merge_ranges, clamp_ranges}
use stkoe_data.Core.Predicate.{
  Predicate, Predicates, Scalar, CmpOp, all_of, any_of, negation, cmp, nil, cons, str, int, uint,
  float, boolean, text_eq,
}
use stkoe_data.Core.Predicate.CmpOp.{eq, ne, lt, le, gt, ge}
use stkoe_data.Core.Lookup.{
  MetaHandle, Core, CoreError, invalid_state, bytes_between, sym_record, axis_lower_bound,
}
use stkoe_data.Core.Scanner.{IndexScanner}

-- `s.as_bytes().cmp(name.as_bytes())`
unfoldable pub compare_bytes : List ℕ → List ℕ → Ordering
compare_bytes [] [] = Ordering.eq
compare_bytes [] (y ∷ ys) = Ordering.lt
compare_bytes (x ∷ xs) [] = Ordering.gt
compare_bytes (x ∷ xs) (y ∷ ys) =
    let rest = compare_bytes xs ys in elim (compare x y) [ Ordering.eq ↦ rest | o ↦ o ]

unfoldable pub dict_offsets_bytes : MetaHandle → Core (List ℕ)
dict_offsets_bytes h =
    let start = h.header.sym_dict_offset in
    bytes_between h.mmap start (start + (h.header.sym_count + 1) * 8)

unfoldable pub strings_bytes : MetaHandle → Core (List ℕ)
strings_bytes h =
    bytes_between h.mmap (h.header.sym_dict_offset + (h.header.sym_count + 1) * 8)
      h.header.sym_index_offset

-- The symbols that are wanted, all for `none`, and the window of time indices.
pub record Window : Type 0 where
  pub syms : Option (List ℕ)
  pub time_lo : ℕ
  pub time_hi : ℕ

unfoldable pub retain : ℕ → List ℕ → List ℕ
retain id [] = []
retain id (e ∷ ids) = let rest = retain id ids in if e == id then e ∷ rest else rest

unfoldable pub insert_id : ℕ → List ℕ → List ℕ
insert_id id [] = id ∷ []
insert_id id (e ∷ ids) =
    let rest = insert_id id ids in if leb id e then id ∷ (e ∷ ids) else e ∷ rest

unfoldable pub sort_ids : List ℕ → List ℕ
unfolding insert_id
sort_ids [] = []
sort_ids (id ∷ ids) = insert_id id (sort_ids ids)

-- `dedup`: of equal neighbours the first stays.
unfoldable pub dedup : List ℕ → List ℕ
dedup [] = []
dedup (a ∷ []) = a ∷ []
dedup (a ∷ (b ∷ ids)) = let rest = dedup (b ∷ ids) in if a == b then rest else a ∷ rest

-- The window narrowed by a comparison with a time.
unfoldable pub narrow : CmpOp → ℕ → ℕ → Window → Window
narrow op lower upper w =
    let lo : ℕ = elim op [
      | eq ↦ max w.time_lo lower
      | ge ↦ max w.time_lo lower
      | gt ↦ max w.time_lo upper
      | _ ↦ w.time_lo
    ] in
    let hi : ℕ = elim op [
      | eq ↦ min w.time_hi upper
      | le ↦ min w.time_hi upper
      | lt ↦ min w.time_hi lower
      | _ ↦ w.time_hi
    ] in
    record { syms = w.syms; time_lo = lo; time_hi = hi }

unfoldable pub with_sym : Option ℕ → Window → Window
unfolding retain
with_sym none w = record { syms = some []; time_lo = w.time_lo; time_hi = w.time_hi }
with_sym (some id) w = record {
  syms = elim w.syms [ none ↦ some (id ∷ []) | some existing ↦ some (retain id existing) ];
  time_lo = w.time_lo;
  time_hi = w.time_hi;
}

unfoldable pub with_any : List ℕ → Window → Window
unfolding sort_ids dedup
with_any ids w = record {
  syms = elim w.syms [
    | none ↦ some (sort_ids ids)
    | some existing ↦ some (dedup (sort_ids (existing ++ sort_ids ids)))
  ];
  time_lo = w.time_lo;
  time_hi = w.time_hi;
}

-- The rows of a symbol in the window, and whether there are any.
unfoldable pub window_range : ℕ → ℕ → ℕ → ℕ → ℕ → RowRange
window_range time_lo time_hi time_start time_count row_start =
    let axis_hi = time_start + time_count in
    let wlo = min (max time_lo time_start) axis_hi in
    let whi = min (max time_hi time_start) axis_hi in
    record { offset = row_start + (wlo - time_start); length = whi - wlo }

-- `request.limit.is_some_and(|l| produced >= l)`
unfoldable pub is_reached : Option ℕ → ℕ → Bool
is_reached none produced = false
is_reached (some l) produced = leb l produced

-- The loop over symbol ids.
unfoldable pub sym_ranges : MetaHandle → Option ℕ → ℕ → ℕ → List ℕ → ℕ → Core (List RowRange)
unfolding window_range is_reached
sym_ranges h limit time_lo time_hi [] produced = ok []
sym_ranges h limit time_lo time_hi (id ∷ ids) produced =
    if is_reached limit produced then ok [] else (do
      rec ← sym_record h id
      let r = window_range time_lo time_hi rec.time_start rec.time_count rec.row_start
      rest ← sym_ranges h limit time_lo time_hi ids (produced + r.length)
      (if r.length == 0 then ok rest else ok (r ∷ rest)))

-- The two pointers of the intersection. A round passes a range, so the number of both suffices.
unfoldable pub intersect_loop : ℕ → List RowRange → List RowRange → List RowRange
intersect_loop zero merged clamped = []
intersect_loop (suc fuel) [] clamped = []
intersect_loop (suc fuel) (r ∷ merged) [] = []
intersect_loop (suc fuel) (r ∷ merged) (s ∷ clamped) =
    let lo = max r.offset s.offset in
    let hi = min (end r) (end s) in
    let first = leb (end r) (end s) in
    let rest =
      intersect_loop fuel (if first then merged else r ∷ merged)
        (if first then s ∷ clamped else clamped) in
    if ltb lo hi then record { offset = lo; length = hi - lo } ∷ rest else rest

-- No requested range stands for all rows.
unfoldable pub intersect_request : List RowRange → List RowRange → ℕ → List RowRange
unfolding intersect_loop
intersect_request merged [] row_count = merged
intersect_request merged (r ∷ request) row_count =
    let clamped = clamp_ranges (r ∷ request) row_count in
    intersect_loop (length merged + length clamped) merged clamped

-- `0..n`
unfoldable pub count_from : ℕ → ℕ → List ℕ
count_from from zero = []
count_from from (suc n) = from ∷ count_from (from + 1) n

abbrev sym_text : List ℕ
sym_text = b's' ∷ b'y' ∷ b'm' ∷ []

abbrev time_text : List ℕ
time_text = b't' ∷ b'i' ∷ b'm' ∷ b'e' ∷ []

module _ (is_utf8 : List ℕ → Bool) (float_as_u64 : ℕ → ℕ) where
  unfoldable pub sym_str : MetaHandle → ℕ → Core (List ℕ)
  unfolding dict_offsets_bytes strings_bytes
  sym_str h sym_id = do
    offsets ← dict_offsets_bytes h
    lo ← bytes_between offsets (sym_id * 8) (sym_id * 8 + 8)
    hi ← bytes_between offsets ((sym_id + 1) * 8) ((sym_id + 1) * 8 + 8)
    strings ← strings_bytes h
    text ← bytes_between strings (from_le lo) (from_le hi)
    guard (is_utf8 text) invalid_state
    ok text

  unfoldable pub sym_id_loop : ℕ → MetaHandle → List ℕ → ℕ → ℕ → Core (Option ℕ)
  unfolding sym_str compare_bytes
  sym_id_loop zero h name lo hi = ok none
  sym_id_loop (suc fuel) h name lo hi =
      let mid = lo + (hi - lo) / 2 in
      if ltb lo hi
      then (do
        text ← sym_str h mid
        let right = sym_id_loop fuel h name (mid + 1) hi
        let left = sym_id_loop fuel h name lo mid
        elim (compare_bytes text name) [
          | Ordering.lt ↦ right
          | Ordering.gt ↦ left
          | Ordering.eq ↦ ok (some mid)
        ])
      else ok none

  unfoldable pub sym_id_of : MetaHandle → List ℕ → Core (Option ℕ)
  unfolding sym_id_loop
  sym_id_of h name = sym_id_loop h.header.sym_count h name 0 h.header.sym_count

  -- The ids of an `Or` of comparisons of `sym`; `none` where a child is anything else.
  unfoldable pub or_ids : MetaHandle → Predicates → Core (Option (List ℕ))
  unfolding sym_id_of
  or_ids h nil = ok (some [])
  or_ids h (cons (cmp (some f) eq (str s)) children) =
      if text_eq f sym_text
      then (do
        found ← sym_id_of h s
        rest ← or_ids h children
        ok (elim rest [
          | none ↦ none
          | some ids ↦ some (elim found [ none ↦ ids | some id ↦ id ∷ ids ])
        ]))
      else ok none
  or_ids h (cons p children) = ok none

  -- The time that a literal stands for.
  unfoldable pub time_value : Scalar → Option ℕ
  time_value (int i) = some i
  time_value (uint u) = some u
  time_value (float f) = some (float_as_u64 f)
  time_value _ = none

  unfoldable pub compile_sym : MetaHandle → CmpOp → Scalar → Window → Core Window
  unfolding sym_id_of with_sym
  compile_sym h eq (str s) w = sym_id_of h s >>= λ found. ok (with_sym found w)
  compile_sym h op value w = ok w

  unfoldable pub compile_time : MetaHandle → CmpOp → Scalar → Window → Core Window
  unfolding time_value narrow
  compile_time h op value w = elim (time_value value) [
    | none ↦ ok w
    | some v ↦ (do
      lower ← axis_lower_bound h v
      upper ← axis_lower_bound h (min (v + 1) (2 ^ 64 - 1))
      ok (narrow op lower upper w))
  ]

  mutual
    unfolding or_ids with_any compile_sym compile_time

    pub compile_node : MetaHandle → Predicate → Window → Core Window
    compile_node h (all_of children) w = compile_all h children w
    compile_node h (any_of children) w = do
      found ← or_ids h children
      ok (elim found [ none ↦ w | some ids ↦ with_any ids w ])
    compile_node h (negation inner) w = ok w
    compile_node h (cmp none op value) w = ok w
    compile_node h (cmp (some f) op value) w =
        if text_eq f sym_text
        then compile_sym h op value w
        else if text_eq f time_text
        then compile_time h op value w
        else ok w

    pub compile_all : MetaHandle → Predicates → Window → Core Window
    compile_all h nil w = ok w
    compile_all h (cons p children) w = compile_node h p w >>= λ w'. compile_all h children w'

  unfoldable pub compile_predicate : MetaHandle → Option Predicate → Core Window
  unfolding compile_node
  compile_predicate h predicate =
      let start : Window = record { syms = none; time_lo = 0; time_hi = h.header.time_count } in
      elim predicate [ none ↦ ok start | some p ↦ compile_node h p start ]

  unfoldable pub scan_index_handle :
      MetaHandle → List RowRange → Option Predicate → Option ℕ → Core IndexScanner
  unfolding compile_predicate sym_ranges intersect_request count_from
  scan_index_handle h request predicate limit = do
    w ← compile_predicate h predicate
    let ids : List ℕ = elim w.syms [ none ↦ count_from 0 h.header.sym_count | some ids ↦ ids ]
    ranges ← sym_ranges h limit w.time_lo w.time_hi ids 0
    ok (record {
      ranges = intersect_request (merge_ranges ranges) request h.header.row_count;
      pos = 0;
      limit = limit;
    })
