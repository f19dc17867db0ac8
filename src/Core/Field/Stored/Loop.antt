-- ===== src/Core/Field/Stored/Loop.antt =====
-- All rounds of the loops over the chunks of a file.
use mathlib.Core.Path.{subst}
use native.Mathlib.Nat.{mod-eq_of_lt}
use stkoe_data.Base.{
  ℕ, zero, suc, ◌+◌, ◌-◌, ◌*◌, ◌^◌, ◌≤◌, ◌<◌, ◌≡◌, refl, sym, ap, ap₂, ◌∙◌, List, [], ◌∷◌, ◌++◌,
  map, length, Option, ok, ltb, arith, lt→ltb, IsBytes, All, length-append, append-nil,
  append_assoc, drop-append, >>=-eq-ok, ok-injective, false,
}
use stkoe_data.Format.DataType.{DataType, size_of, IsWidth}
use stkoe_data.Format.Encoding.{plain}
use stkoe_data.Format.Compression.{Compression}
use stkoe_data.Format.Bitmap.{Bitmap}
use stkoe_data.Codec.Compression.{Backends, IsLossless}
use stkoe_data.Codec.Chunk
use stkoe_data.Codec.Chunk.{chunk_header_size, ChunkHeader}
use stkoe_data.Core.Chunks.{IsTiling}
use stkoe_data.Core.Field.Create.{write_chunk, write_chunks}
use stkoe_data.Core.Field.Open.{Working, decode_loop, chunk_rows_loop}
use stkoe_data.Core.Field.Stored.Bits.{IsValidity, same_view}
use stkoe_data.Core.Field.Stored.Step.{Progress, Written, write_chunk-Written, decode_round}

tiling-le : (start stop : ℕ) (ranges : List (ℕ × ℕ)) → IsTiling start stop ranges → start ≤ stop
unfolding IsTiling
tiling-le start stop [] h = omega arith
tiling-le start stop (r ∷ ranges) h =
    let (e, pos, rest) = h in let k = tiling-le r.1 stop ranges rest in omega arith

decode_loop-end :
    (b : Backends) (compression : Compression) (dt : DataType) (bytes : List ℕ) (fuel pos : ℕ)
    (work : Working) (lo : ℕ)
    → length bytes ≤ pos
    → decode_loop b plain compression dt bytes fuel pos work lo ≡ ok (work, lo)
unfolding decode_loop
decode_loop-end b compression dt bytes zero pos work lo h = refl
decode_loop-end b compression dt bytes (suc fuel) pos work lo h =
    rw (let e : ltb pos (length bytes) ≡ false = ground arith in e) refl

chunk_rows_loop-end :
    (bytes : List ℕ) (fuel pos : ℕ)
    → length bytes ≤ pos
    → chunk_rows_loop bytes fuel pos ≡ ok ([], pos)
unfolding chunk_rows_loop
chunk_rows_loop-end bytes zero pos h = refl
chunk_rows_loop-end bytes (suc fuel) pos h =
    rw (let e : ltb pos (length bytes) ≡ false = ground arith in e) refl

-- A round of `chunk_rows_loop` from its header.
chunk_rows_loop-round :
    (pre chunk rest rows : List ℕ) (fuel end : ℕ) (hdr : ChunkHeader)
    → Chunk.from_bytes (chunk ++ rest) ≡ ok hdr
    → chunk_header_size + hdr.payload_len ≡ length chunk
    → chunk_rows_loop ((pre ++ chunk) ++ rest) fuel (length (pre ++ chunk)) ≡ ok (rows, end)
    → chunk_rows_loop (pre ++ (chunk ++ rest)) (suc fuel) (length pre) ≡ ok (hdr.rows ∷ rows, end)
unfolding chunk_rows_loop
chunk_rows_loop-round pre chunk rest rows fuel end hdr h m e =
    let long = length-append pre (chunk ++ rest) in
    let long' = length-append chunk rest in
    let stop : length pre + chunk_header_size + hdr.payload_len ≡ length (pre ++ chunk) =
      omega (arith, m, length-append pre chunk) in
    let others =
      ap₂ (λ c n. chunk_rows_loop c fuel n) (sym (append_assoc pre chunk rest)) stop ∙ e in
    rw
      (
        lt→ltb (length pre) (length (pre ++ (chunk ++ rest))) (omega (arith, m, long, long')),
        drop-append (length pre) pre (chunk ++ rest) refl,
        h,
        others,
      )
      refl

module _ (b : Backends) (lossless : IsLossless b) (compression : Compression) (dt : DataType)
    (width : IsWidth (size_of dt)) (values : List ℕ) (validity : Option Bitmap) (rows : ℕ)
    (bytes : IsBytes values) (sized : length values ≡ rows * size_of dt)
    (is_validity : IsValidity rows validity) (few : 12 * rows + 1 < 2 ^ 32) where
  -- Each chunk is short enough for the `u32` fields of its header.
  abbrev pub IsShort : ℕ × ℕ → Type 0
  IsShort range =
      (chunk : List ℕ)
      → write_chunk b compression dt values (same_view validity) (size_of dt) range ≡ ok chunk
      → length chunk < 2 ^ 32

  abbrev RowProgress : ℕ → Working → Type 0
  RowProgress =
      Progress b lossless compression dt width values validity rows bytes sized is_validity few

  -- The first chunk of those that were written.
  record First (lo : ℕ) (range : ℕ × ℕ) (ranges : List (ℕ × ℕ)) (chunks : List ℕ) : Type 0 where
    chunk : List ℕ
    rest : List ℕ
    k : ℕ
    behind : range.1 ≡ lo + k
    measured : k ≡ range.1 - range.0
    positive : 0 < k
    inside : lo + k ≤ rows
    tiled : IsTiling (lo + k) rows ranges
    rest_written :
        write_chunks b compression dt values (same_view validity) (size_of dt) ranges ≡ ok rest
    split : chunks ≡ chunk ++ rest
    written :
        Written b lossless compression dt width values validity rows bytes sized is_validity few lo
          k chunk rest

  write_chunks-First :
      (lo : ℕ) (range : ℕ × ℕ) (ranges : List (ℕ × ℕ)) (chunks : List ℕ)
      → IsTiling lo rows (range ∷ ranges)
      → IsShort range
      → write_chunks b compression dt values (same_view validity) (size_of dt) (range ∷ ranges)
        ≡ ok chunks
      → First lo range ranges chunks
  unfolding IsTiling write_chunks
  write_chunks-First lo range ranges chunks h short e =
      let (start, pos, tiled) = h in
      let (chunk, first, e1) =
        >>=-eq-ok (write_chunk b compression dt values (same_view validity) (size_of dt) range) _
          e in
      let (rest, others, e2) =
        >>=-eq-ok (write_chunks b compression dt values (same_view validity) (size_of dt) ranges) _
          e1 in
      let k : ℕ = range.1 - range.0 in
      let behind : range.1 ≡ lo + k = omega arith in
      let inside = tiling-le range.1 rows ranges tiled in
      record {
        chunk = chunk;
        rest = rest;
        k = k;
        behind = behind;
        measured = refl;
        positive = omega arith;
        inside = omega arith;
        tiled = subst (λ n. IsTiling n rows ranges) behind tiled;
        rest_written = others;
        split = sym (ok-injective e2);
        written =
            write_chunk-Written b lossless compression dt width values validity rows bytes sized
              is_validity few lo k chunk rest (omega arith) (omega arith) (short chunk first)
              (ap (write_chunk b compression dt values (same_view validity) (size_of dt)) (
                  let p : ◌≡◌ {A = ℕ × ℕ} (lo, lo + k) range =
                    let s = sym start in let t = sym behind in λ i. (s i, t i) in
                  p)
                ∙ first);
      }

  pub decode_loop-chunks :
      (ranges : List (ℕ × ℕ)) (fuel lo : ℕ) (work : Working) (pre chunks : List ℕ)
      → IsTiling lo rows ranges
      → All IsShort ranges
      → write_chunks b compression dt values (same_view validity) (size_of dt) ranges ≡ ok chunks
      → length chunks ≤ fuel
      → RowProgress lo work
      → (work' : Working) × RowProgress rows work'
        × (decode_loop b plain compression dt (pre ++ chunks) fuel (length pre) work lo
            ≡ ok (work', rows))
  unfolding write_chunks IsTiling
  decode_loop-chunks [] fuel lo work pre chunks h short e enough p =
      let none_left : [] ≡ chunks = ok-injective e in
      (
        work,
        subst (λ n. RowProgress n work) h p,
        ap (λ c. decode_loop b plain compression dt (pre ++ c) fuel (length pre) work lo)
              (sym none_left)
            ∙ (decode_loop-end b compression dt (pre ++ []) fuel (length pre) work lo
                  (omega (arith, ap length (append-nil pre)))
                ∙ ap (λ n. ok (work, n)) h),
      )
  decode_loop-chunks (range ∷ ranges) zero lo work pre chunks h short e enough p =
      let f = write_chunks-First lo range ranges chunks h short.0 e in
      let long = ap length f.split ∙ length-append f.chunk f.rest in
      absurd (omega (arith, f.written.framed.measures))
  decode_loop-chunks (range ∷ ranges) (suc fuel) lo work pre chunks h short e enough p =
      let f = write_chunks-First lo range ranges chunks h short.0 e in
      let long = ap length f.split ∙ length-append f.chunk f.rest in
      let (work1, p1, round) =
        decode_round b lossless compression dt width values validity rows bytes sized is_validity
          few lo f.k work pre f.chunk f.rest p f.positive f.inside f.written in
      let (work2, p2, others) =
        decode_loop-chunks ranges fuel (lo + f.k) work1 (pre ++ f.chunk) f.rest f.tiled short.1
          f.rest_written (omega (arith, f.written.framed.measures)) p1 in
      (
        work2,
        p2,
        ap (λ c. decode_loop b plain compression dt (pre ++ c) (suc fuel) (length pre) work lo)
              f.split
            ∙ (round fuel
                ∙ (ap₂ (λ c n. decode_loop b plain compression dt c fuel n work1 (lo + f.k))
                      (sym (append_assoc pre f.chunk f.rest)) (sym (length-append pre f.chunk))
                    ∙ others)),
      )

  -- The rows of the chunks, and the end of the file.
  pub chunk_rows_loop-chunks :
      (ranges : List (ℕ × ℕ)) (fuel lo : ℕ) (pre chunks : List ℕ)
      → IsTiling lo rows ranges
      → All IsShort ranges
      → write_chunks b compression dt values (same_view validity) (size_of dt) ranges ≡ ok chunks
      → length chunks ≤ fuel
      → chunk_rows_loop (pre ++ chunks) fuel (length pre)
        ≡ ok (map (λ (r : ℕ × ℕ). r.1 - r.0) ranges, length (pre ++ chunks))
  unfolding write_chunks
  chunk_rows_loop-chunks [] fuel lo pre chunks h short e enough =
      let none_left : [] ≡ chunks = ok-injective e in
      ap (λ c. chunk_rows_loop (pre ++ c) fuel (length pre)) (sym none_left)
      ∙ (chunk_rows_loop-end (pre ++ []) fuel (length pre)
            (omega (arith, ap length (append-nil pre)))
          ∙ ap (λ n. ok ([], n))
              (ap length (sym (append-nil pre)) ∙ ap (λ c. length (pre ++ c)) none_left))
  chunk_rows_loop-chunks (range ∷ ranges) zero lo pre chunks h short e enough =
      let f = write_chunks-First lo range ranges chunks h short.0 e in
      let long = ap length f.split ∙ length-append f.chunk f.rest in
      absurd (omega (arith, f.written.framed.measures))
  chunk_rows_loop-chunks (range ∷ ranges) (suc fuel) lo pre chunks h short e enough =
      let f = write_chunks-First lo range ranges chunks h short.0 e in
      let long = ap length f.split ∙ length-append f.chunk f.rest in
      let w = f.written.framed in
      let others =
        chunk_rows_loop-chunks ranges fuel (lo + f.k) (pre ++ f.chunk) f.rest f.tiled short.1
          f.rest_written (omega (arith, w.measures)) in
      let counts : w.header.rows ≡ range.1 - range.0 =
        w.counts ∙ (mod-eq_of_lt (let i = f.inside in omega arith) ∙ f.measured) in
      ap (λ c. chunk_rows_loop (pre ++ c) (suc fuel) (length pre)) f.split
      ∙ (chunk_rows_loop-round pre f.chunk f.rest _ fuel _ w.header w.parsed w.measures others
          ∙ ap₂ (λ n end. ok (n ∷ map (λ (r : ℕ × ℕ). r.1 - r.0) ranges, end)) counts
              (ap length (append_assoc pre f.chunk f.rest)
                ∙ ap (λ c. length (pre ++ c)) (sym f.split)))

  pub length-write_chunks-pos :
      (ranges : List (ℕ × ℕ)) (chunks : List ℕ)
      → 0 < rows
      → IsTiling 0 rows ranges
      → All IsShort ranges
      → write_chunks b compression dt values (same_view validity) (size_of dt) ranges ≡ ok chunks
      → 0 < length chunks
  unfolding IsTiling
  length-write_chunks-pos [] chunks pos h short e = absurd (omega arith)
  length-write_chunks-pos (range ∷ ranges) chunks pos h short e =
      let f = write_chunks-First 0 range ranges chunks h short.0 e in
      omega (arith, f.written.framed.measures, ap length f.split, length-append f.chunk f.rest)
