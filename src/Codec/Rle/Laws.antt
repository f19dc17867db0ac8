-- ===== src/Codec/Rle/Laws.antt =====
-- Decoding what was stored as runs.
use native.Mathlib.Nat.{mul-div_cancel}
use stkoe_data.Base.{length-word}
use stkoe_data.Base.{ℕ, zero, suc, ◌+◌, ◌*◌, ◌/◌, ◌%◌, ◌^◌, ◌≤◌, ◌<◌, ◌≡◌, refl, sym, ap, ap₂, ◌∙◌}
use stkoe_data.Base.{List, [], ◌∷◌, ◌++◌, append_assoc, append-nil, ◌&&◌, true, ==-of_eq, ltb}
use stkoe_data.Base.{length, take, drop, le_bytes, from_le, ok, ◌>>=◌, arith, Bool-cases, inl, inr}
use stkoe_data.Base.{length-append, length-drop, take-append, drop-append, drop-drop}
use stkoe_data.Base.{take-append-drop, drop_all, length-le_bytes, from_le-le_bytes}
use stkoe_data.Format.DataType.{DataType, size_of, rows-size_of-le}
use stkoe_data.Codec.Rle.{
  bytes_eq, cell, count_run, encode_loop, encode, repeat, decode_loop, decode, with_capacity,
}

bytes_eq→eq : (xs ys : List ℕ) → bytes_eq xs ys ≡ true → xs ≡ ys
unfolding bytes_eq
bytes_eq→eq [] [] h = refl
bytes_eq→eq [] (y ∷ ys) h = cc
bytes_eq→eq (x ∷ xs) [] h = cc
bytes_eq→eq (x ∷ xs) (y ∷ ys) h = ground (arith, bytes_eq→eq xs ys)

with_capacity-rows :
    (data_type : DataType) (rows : ℕ)
    → rows < 2 ^ 32
    → with_capacity (rows * size_of data_type % 2 ^ 64) ≡ ok tt
unfolding with_capacity
with_capacity-rows data_type rows h = let small = rows-size_of-le data_type rows in ground arith

-- What the inner loop finds: a run inside the column, all of whose rows hold the value at `i`.
pub record IsRun (n s : ℕ) (values : List ℕ) (i run : ℕ) : Type 0 where
  pub inside : i + run ≤ n
  pub same : (k : ℕ) → k < run → cell s values (i + k) ≡ cell s values i

IsRun-suc :
    {n s : ℕ} {values : List ℕ} {i run : ℕ}
    → IsRun n s values i run
    → i + run < n
    → cell s values (i + run) ≡ cell s values i
    → IsRun n s values i (run + 1)
IsRun-suc {n} {s} {values} {i} {run} r h e = record {
  inside = omega arith;
  same = λ k p. elim (Bool-cases (ltb k run)) [
    | inl q ↦ r.same k (ground arith)
    | inr q ↦ (let w : k ≡ run = ground arith in rw w e)
  ];
}

pub count_run-IsRun :
    (fuel n s : ℕ) (values : List ℕ) (i run : ℕ)
    → 1 ≤ run
    → IsRun n s values i run
    → (1 ≤ count_run fuel n s values i run) × IsRun n s values i (count_run fuel n s values i run)
unfolding count_run
count_run-IsRun zero n s values i run h r = (h, r)
count_run-IsRun (suc fuel) n s values i run h r =
    elim (Bool-cases (ltb (i + run) n && bytes_eq (cell s values (i + run)) (cell s values i))) [
      | inl q ↦ rw q (
          count_run-IsRun fuel n s values i (run + 1) (omega arith) (
            IsRun-suc r (ground arith)
              (bytes_eq→eq (cell s values (i + run)) (cell s values i) (ground arith))))
      | inr q ↦ rw q (h, r)
    ]

-- The rows of a run, and what follows them, are what is left of the column.
repeat-append-drop :
    (s : ℕ) (values c : List ℕ) (run i : ℕ)
    → ((k : ℕ) → k < run → cell s values (i + k) ≡ c)
    → repeat run c ++ drop ((i + run) * s) values ≡ drop (i * s) values
unfolding repeat
repeat-append-drop s values c zero i h =
    ap (λ k. drop k values) (let e : (i + zero) * s ≡ i * s = omega arith in e)
repeat-append-drop s values c (suc run) i h =
    append_assoc c (repeat run c) (drop ((i + suc run) * s) values)
    ∙ ap₂ ◌++◌ (sym (h 0 (omega arith)) ∙ ap (cell s values) (let e : i + 0 ≡ i = omega arith in e))
        (ap (λ k. repeat run c ++ drop (k * s) values)
            (let e : i + suc run ≡ i + 1 + run = omega arith in e)
          ∙ repeat-append-drop s values c run (i + 1) (λ k p.
            ap (cell s values) (let e : i + 1 + k ≡ i + suc k = omega arith in e)
            ∙ h (suc k) (omega arith))
          ∙ ap (λ k. drop k values) (let q : (i + 1) * s ≡ i * s + s = omega arith in q)
          ∙ sym (drop-drop s (i * s) values))
    ∙ take-append-drop s (drop (i * s) values)

-- One round of the decoder over the pair `(run, c)` at `pos`.
decode_loop_step :
    (fuel s : ℕ) (payload : List ℕ) (rows got pos : ℕ) (out c rest : List ℕ) (run : ℕ)
    → drop pos payload ≡ le_bytes 4 (run % 2 ^ 32) ++ (c ++ rest)
    → length c ≡ s
    → run < 2 ^ 32
    → 1 ≤ run
    → got + run ≤ rows
    → decode_loop (suc fuel) s payload rows got pos out
      ≡ decode_loop fuel s payload rows (got + run) (pos + (4 + s)) (out ++ repeat run c)
unfolding decode_loop
decode_loop_step fuel s payload rows got pos out c rest run e hc hr h1 hg = ground (
  arith,
  ap (λ t. from_le (take 4 t)) e,
  ap from_le (take-append 4 (le_bytes 4 (run % 2 ^ 32)) (c ++ rest) (length-le_bytes 4 _)),
  from_le-le_bytes 4 (run % 2 ^ 32),
  sym (drop-drop 4 pos payload),
  ap (drop 4) e,
  drop-append 4 (le_bytes 4 (run % 2 ^ 32)) (c ++ rest) (length-le_bytes 4 _),
  take-append s c rest hc,
  ap length e,
  length-drop pos payload,
  length-append (le_bytes 4 (run % 2 ^ 32)) (c ++ rest),
  length-append c rest,
  length-le_bytes 4 (run % 2 ^ 32),
)

after_pair :
    (pos s : ℕ) (payload c rest : List ℕ) (run : ℕ)
    → drop pos payload ≡ le_bytes 4 (run % 2 ^ 32) ++ (c ++ rest)
    → length c ≡ s
    → drop (pos + (4 + s)) payload ≡ rest
after_pair pos s payload c rest run e hc =
    sym (drop-drop (4 + s) pos payload)
    ∙ ap (drop (4 + s)) e
    ∙ sym (drop-drop s 4 (le_bytes 4 (run % 2 ^ 32) ++ (c ++ rest)))
    ∙ ap (drop s) (drop-append 4 (le_bytes 4 (run % 2 ^ 32)) (c ++ rest) (length-le_bytes 4 _))
    ∙ drop-append s c rest hc

pair_fits :
    (pos s : ℕ) (payload c rest : List ℕ) (run : ℕ)
    → drop pos payload ≡ le_bytes 4 (run % 2 ^ 32) ++ (c ++ rest)
    → length c ≡ s
    → pos + (4 + s) ≤ length payload
pair_fits pos s payload c rest run e hc = omega (
  arith,
  ap length e,
  length-drop pos payload,
  length-append (le_bytes 4 (run % 2 ^ 32)) (c ++ rest),
  length-append c rest,
  length-le_bytes 4 (run % 2 ^ 32),
)

pub first-IsRun : (n s : ℕ) (values : List ℕ) (i : ℕ) → i < n → IsRun n s values i 1
first-IsRun n s values i h = record {
  inside = omega arith;
  same = λ k p. ap (cell s values) (omega arith);
}

module _ (n s : ℕ) (values payload : List ℕ) (sized : length values ≡ n * s)
    (small : n < 2 ^ 32) where
  -- At the end of the column nothing is left to read.
  decode_loop_end :
      (fd i pos : ℕ) (out : List ℕ)
      → i ≡ n
      → pos ≤ length payload
      → length payload < fd + pos
      → drop pos payload ≡ []
      → out ++ drop (i * s) values ≡ values
      → decode_loop fd s payload n i pos out ≡ ok (length payload, values)
  unfolding decode_loop
  decode_loop_end zero i pos out hi hp hfd e h = absurd (omega arith)
  decode_loop_end (suc fd) i pos out hi hp hfd e h = ground (
    arith,
    length-drop pos payload,
    ap length e,
    ap (λ t. out ++ t) (drop_all (i * s) values (rw hi (omega arith))),
    append-nil out,
  )

  -- The decoder at the pair that the encoder wrote for row `i`.
  decode_loop-encode_loop :
      (fe fd i pos : ℕ) (out : List ℕ)
      → i ≤ n
      → n ≤ fe + i
      → pos ≤ length payload
      → length payload < fd + pos
      → drop pos payload ≡ encode_loop fe n s values i
      → out ++ drop (i * s) values ≡ values
      → decode_loop fd s payload n i pos out ≡ ok (length payload, values)
  unfolding encode_loop
  decode_loop-encode_loop zero fd i pos out hi hfe hp hfd e h =
      decode_loop_end fd i pos out (omega arith) hp hfd e h
  decode_loop-encode_loop (suc fe) zero i pos out hi hfe hp hfd e h = absurd (omega arith)
  decode_loop-encode_loop (suc fe) (suc fd) i pos out hi hfe hp hfd e h =
      elim (Bool-cases (ltb i n)) [
        | inr q ↦ decode_loop_end (suc fd) i pos out (ground arith) hp hfd (e ∙ rw q) h
        | inl q ↦
            let run = count_run n n s values i 1 in
            let c = cell s values i in
            let rest = encode_loop fe n s values (i + run) in
            let (one, r) =
              count_run-IsRun n n s values i 1 (omega arith)
                (first-IsRun n s values i (ground arith)) in
            let wide : length c ≡ s = length-word s values n i sized (ground arith) in
            let here : drop pos payload ≡ le_bytes 4 (run % 2 ^ 32) ++ (c ++ rest) = e ∙ rw q in
            let there : i + run ≤ n = r.inside in
            decode_loop_step fd s payload n i pos out c rest run here wide (omega arith) one there
            ∙ decode_loop-encode_loop fe fd (i + run) (pos + (4 + s)) (out ++ repeat run c) there
                (omega arith) (pair_fits pos s payload c rest run here wide) (omega arith)
                (after_pair pos s payload c rest run here wide)
                (append_assoc out (repeat run c) (drop ((i + run) * s) values)
                  ∙ ap (λ t. out ++ t) (repeat-append-drop s values c run i r.same)
                  ∙ h)
      ]

module _ (data_type : DataType) (values : List ℕ) (rows : ℕ) (width : 0 < size_of data_type)
    (sized : length values ≡ rows * size_of data_type) where
  pub encode_ok : encode data_type values ≡ ok (encode_loop rows rows (size_of data_type) values 0)
  unfolding encode
  encode_ok = ground (arith, mul-div_cancel rows width, ap (λ (l : ℕ). l / size_of data_type) sized)

  -- A column of fewer than 2^32 fixed-width values that is stored as runs is read back unchanged.
  pub decode-encode_rle :
      rows < 2 ^ 32
      → (encode data_type values >>= λ payload. decode data_type payload rows) ≡ ok values
  decode-encode_rle small = rw encode_ok decoded
    where
      payload : List ℕ
      payload = encode_loop rows rows (size_of data_type) values 0

      decoded : decode data_type payload rows ≡ ok values
      decoded =
          unfold decode in
          rw (
            with_capacity-rows data_type rows small,
            decode_loop-encode_loop rows (size_of data_type) values payload sized small rows
                (length payload + 1) 0 0 [] (omega arith) (omega arith) (omega arith) (omega arith)
                refl
                (ap (λ k. drop k values) (let e : 0 * size_of data_type ≡ 0 = omega arith in e)),
            ==-of_eq (length payload) (length payload) refl,
          )
