-- ===== src/Core/Field/Stored/Step.antt =====
-- One round of the loop that decodes a chunked file.
use stkoe_data.Base.{
  ℕ, zero, suc, ◌+◌, ◌-◌, ◌*◌, ◌^◌, ◌≤◌, ◌<◌, ◌≡◌, refl, sym, ap, ap₂, ◌∙◌, List, [], ◌∷◌, ◌++◌,
  length, take, drop, Option, some, ok, err, panic, ltb, if◌then◌else◌, arith, le→leb, lt→ltb,
  ==-of_eq, IsBytes, take-IsBytes, drop-IsBytes, bit_at, length-append, length-take, length-drop,
  take-append, drop-append, append-nil, append_assoc, inl, inr, Bool-cases,
}
use stkoe_data.Format.DataType.{DataType, size_of, IsWidth}
use stkoe_data.Format.Encoding.{plain}
use stkoe_data.Format.Compression.{Compression}
use stkoe_data.Format.Bitmap.{Bitmap}
use stkoe_data.Format.Bitmap.Fill.{within}
use stkoe_data.Codec.Errors.{Codec}
use stkoe_data.Codec.Chunk.{encode_chunk, decode_chunk, chunk_header_size, ChunkHeader}
use stkoe_data.Codec.Chunk
use stkoe_data.Codec.Chunk.Laws.{decode_chunk-encode_chunk}
use stkoe_data.Codec.Chunk.Framed.{Framed, encode_chunk-Framed}
use stkoe_data.Codec.Compression.{Backends, IsLossless}
use stkoe_data.Core.Lookup.{bytes_between}
use stkoe_data.Core.Field.Create.{map_codec, write_chunk, packed_slice}
use stkoe_data.Core.Field.Open.{Working, copy_from_slice, merge_validity, decode_loop}
use stkoe_data.Core.Field.Stored.Sizes.{packed-HasSize}
use stkoe_data.Core.Field.Stored.Bits.{
  row_bit, packed_bit, IsValidity, IsPacked, IsTarget, same_view, packed_slice-bits, Merged,
  merge_validity-Merged,
}

pub bytes_between-ok :
    (bytes : List ℕ) (from to : ℕ)
    → from ≤ to
    → to ≤ length bytes
    → bytes_between bytes from to ≡ ok (take (to - from) (drop from bytes))
bytes_between-ok bytes from to h k = rw (le→leb from to h, le→leb to (length bytes) k) refl

pub map_codec-eq-ok : {A : Type 0} (r : Codec A) (a : A) → map_codec r ≡ ok a → r ≡ ok a
map_codec-eq-ok (ok x) a e = cc
map_codec-eq-ok (err x) a e = cc
map_codec-eq-ok panic a e = cc

slice_middle :
    (pre chunk rest : List ℕ) (to : ℕ)
    → to ≡ length pre + length chunk
    → take (to - length pre) (drop (length pre) (pre ++ (chunk ++ rest))) ≡ chunk
slice_middle pre chunk rest to e =
    ap₂ take (let m : to - length pre ≡ length chunk = omega (arith, e) in m)
      (drop-append (length pre) pre (chunk ++ rest) refl)
    ∙ take-append (length chunk) chunk rest refl

take-nil : (n : ℕ) → take n (let e : List ℕ = [] in e) ≡ []
take-nil zero = refl
take-nil (suc n) = refl

take-take-drop : (n m : ℕ) (xs : List ℕ) → take n xs ++ take m (drop n xs) ≡ take (n + m) xs
take-take-drop zero m xs = ap (λ k. take k xs) (let e : m ≡ 0 + m = omega arith in e)
take-take-drop (suc n) m [] = take-nil m ∙ sym (take-nil (suc n + m))
take-take-drop (suc n) m (x ∷ xs) =
    ap (λ t. x ∷ t) (take-take-drop n m xs)
    ∙ ap (λ k. take k (x ∷ xs)) (let e : suc (n + m) ≡ suc n + m = omega arith in e)

take-copied :
    (n m : ℕ) (xs part rest values : List ℕ)
    → take n xs ≡ take n values
    → n ≤ length xs
    → part ≡ take m (drop n values)
    → n + m ≤ length values
    → take (n + m) (take n xs ++ (part ++ rest)) ≡ take (n + m) values
take-copied n m xs part rest values e long p h =
    ap (take (n + m)) (sym (append_assoc (take n xs) part rest))
    ∙ (take-append (n + m) (take n xs ++ part) rest (
          omega (
            arith,
            length-append (take n xs) part,
            length-take n xs,
            ap length p,
            length-take m (drop n values),
            length-drop n values,
          ))
        ∙ (ap₂ ◌++◌ e p ∙ take-take-drop n m values))

-- The values and validity of a column of `rows` rows that is stored.
module _ (b : Backends) (lossless : IsLossless b) (compression : Compression) (dt : DataType)
    (width : IsWidth (size_of dt)) (values : List ℕ) (validity : Option Bitmap) (rows : ℕ)
    (bytes : IsBytes values) (sized : length values ≡ rows * size_of dt)
    (is_validity : IsValidity rows validity) (few : 12 * rows + 1 < 2 ^ 32) where
  -- The rows before `lo` are decoded.
  pub record Progress (lo : ℕ) (work : Working) : Type 0 where
    pub allocated : length work.values ≡ rows * size_of dt
    pub decoded : take (lo * size_of dt) work.values ≡ take (lo * size_of dt) values
    pub target : Bitmap
    pub has_bits : work.validity ≡ some target
    pub is_target : IsTarget rows target
    pub bits : (i : ℕ) → i < lo → bit_at target.data' i ≡ row_bit validity i

  abbrev part : ℕ → ℕ → List ℕ
  part lo k = take (k * size_of dt) (drop (lo * size_of dt) values)

  write_chunk-eq :
      (lo k : ℕ) (packed : Option (List ℕ))
      → lo + k ≤ rows
      → packed_slice (same_view validity) lo k ≡ ok packed
      → write_chunk b compression dt values (same_view validity) (size_of dt) (lo, lo + k)
        ≡ map_codec (encode_chunk b plain compression dt (part lo k) packed k)
  unfolding write_chunk
  write_chunk-eq lo k packed inside e =
      rw
        (
          (let m : lo + k - lo ≡ k = omega arith in m),
          bytes_between-ok values (lo * size_of dt) ((lo + k) * size_of dt) (grind arith)
              (grind (arith, sized)),
          (let m : (lo + k) * size_of dt - lo * size_of dt ≡ k * size_of dt = grind arith in m),
          e,
        )
        refl

  -- A round copies the values of the chunk.
  copy_from_slice-eq :
      (lo k : ℕ) (work : Working)
      → Progress lo work
      → lo + k ≤ rows
      → copy_from_slice work.values (lo * size_of dt) ((lo + k) * size_of dt) (part lo k)
        ≡ ok (
            take (lo * size_of dt) work.values
            ++ (part lo k ++ drop ((lo + k) * size_of dt) work.values))
  unfolding copy_from_slice
  copy_from_slice-eq lo k work p inside =
      let ends : lo * size_of dt + k * size_of dt ≡ (lo + k) * size_of dt = grind arith in
      let fits : (lo + k) * size_of dt ≤ rows * size_of dt = grind arith in
      rw
        (
          le→leb (lo * size_of dt) ((lo + k) * size_of dt) (omega (arith, ends)),
          le→leb ((lo + k) * size_of dt) (length work.values) (omega (arith, p.allocated, fits)),
          ==-of_eq (length (part lo k)) ((lo + k) * size_of dt - lo * size_of dt) (
              omega (
                arith,
                ends,
                fits,
                sized,
                length-take (k * size_of dt) (drop (lo * size_of dt) values),
                length-drop (lo * size_of dt) values,
              )),
        )
        refl

  abbrev copied : ℕ → ℕ → Working → List ℕ
  copied lo k work =
      take (lo * size_of dt) work.values ++ (part lo k ++ drop ((lo + k) * size_of dt) work.values)

  round-Progress :
      (lo k : ℕ) (work : Working) (packed : Option (List ℕ)) (dst' : Bitmap) (p : Progress lo work)
      → lo + k ≤ rows
      → Merged rows p.target dst' packed lo k
      → ((i : ℕ) → i < k → packed_bit packed i ≡ row_bit validity (lo + i))
      → Progress (lo + k) (record { values = copied lo k work; validity = some dst' })
  round-Progress lo k work packed dst' p inside merged packed_bits =
      let ends : lo * size_of dt + k * size_of dt ≡ (lo + k) * size_of dt = grind arith in
      let fits : (lo + k) * size_of dt ≤ rows * size_of dt = grind arith in
      let behind : List ℕ = drop ((lo + k) * size_of dt) work.values in
      record {
        allocated = omega (
          arith,
          p.allocated,
          sized,
          ends,
          fits,
          length-append (take (lo * size_of dt) work.values) (part lo k ++ behind),
          length-append (part lo k) behind,
          length-take (lo * size_of dt) work.values,
          length-take (k * size_of dt) (drop (lo * size_of dt) values),
          length-drop (lo * size_of dt) values,
          length-drop ((lo + k) * size_of dt) work.values,
        );
        decoded =
            ap (λ n. take n (copied lo k work)) (sym ends)
            ∙ take-copied (lo * size_of dt) (k * size_of dt) work.values (part lo k) behind values
                p.decoded (omega (arith, p.allocated, ends, fits)) refl
                (omega (arith, sized, ends, fits))
            ∙ ap (λ n. take n values) ends;
        target = dst';
        has_bits = refl;
        is_target = merged.is_target;
        bits = λ i q. merged.bits i ∙ elim (Bool-cases (ltb i lo)) [
          | inl r ↦
              before i (packed_bit packed (i - lo)) _ _ (ground arith) (p.bits i (ground arith))
          | inr r ↦
              let e : lo + (i - lo) ≡ i = ground arith in
              now i (packed_bit packed (i - lo)) _ _ (ground arith) q
                (packed_bits (i - lo) (ground arith) ∙ ap (row_bit validity) e)
        ];
      }
    where
      before : (i x y z : ℕ) → i < lo → y ≡ z → (if within lo k i then x else y) ≡ z
      before i x y z h e = ground arith

      now : (i x y z : ℕ) → lo ≤ i → i < lo + k → x ≡ z → (if within lo k i then x else y) ≡ z
      now i x y z h q e = ground arith

  -- A round from the results of what it calls.
  decode_loop-round :
      (lo k fuel : ℕ) (work : Working) (pre chunk rest values' : List ℕ) (packed : Option (List ℕ))
      (dst dst' : Bitmap) (hdr : ChunkHeader)
      → work.validity ≡ some dst
      → Chunk.from_bytes (chunk ++ rest) ≡ ok hdr
      → chunk_header_size + hdr.payload_len ≡ length chunk
      → decode_chunk b plain compression dt chunk ≡ ok (part lo k, packed, k)
      → copy_from_slice work.values (lo * size_of dt) ((lo + k) * size_of dt) (part lo k)
        ≡ ok values'
      → merge_validity (some dst) packed lo k ≡ ok (some dst')
      → decode_loop b plain compression dt (pre ++ (chunk ++ rest)) (suc fuel) (length pre) work lo
        ≡ decode_loop b plain compression dt
            (pre ++ (chunk ++ rest))
            fuel
            (length pre + length chunk)
            (record { values = values'; validity = some dst' })
            (lo + k)
  unfolding decode_loop
  decode_loop-round lo k fuel work pre chunk rest values' packed dst dst' hdr v h m d c g =
      let long = length-append pre (chunk ++ rest) in
      let long' = length-append chunk rest in
      let stop : ℕ = length pre + chunk_header_size + hdr.payload_len in
      rw
        (
          lt→ltb (length pre) (length (pre ++ (chunk ++ rest))) (omega (arith, m, long, long')),
          drop-append (length pre) pre (chunk ++ rest) refl,
          h,
          le→leb (length pre) stop (omega arith),
          le→leb stop (length (pre ++ (chunk ++ rest))) (omega (arith, m, long, long')),
          (let e : stop - length pre ≡ length chunk = omega (arith, m) in e),
          take-append (length chunk) chunk rest refl,
          d,
          c,
          v,
          g,
        )
        (ap
          (λ (stop : ℕ).
            decode_loop b plain compression dt (pre ++ (chunk ++ rest)) fuel stop
              (record { values = values'; validity = some dst' }) (lo + k))
          (let e : stop ≡ length pre + length chunk = omega (arith, m) in e))

  -- What was written for `k` rows from `lo` on.
  pub record Written (lo k : ℕ) (chunk rest : List ℕ) : Type 0 where
    pub packed : Option (List ℕ)
    pub is_packed : IsPacked k packed
    pub packed_bits : (i : ℕ) → i < k → packed_bit packed i ≡ row_bit validity (lo + i)
    pub framed : Framed chunk rest k
    pub decodes : decode_chunk b plain compression dt chunk ≡ ok (part lo k, packed, k)

  pub write_chunk-Written :
      (lo k : ℕ) (chunk rest : List ℕ)
      → 0 < k
      → lo + k ≤ rows
      → length chunk < 2 ^ 32
      → write_chunk b compression dt values (same_view validity) (size_of dt) (lo, lo + k)
        ≡ ok chunk
      → Written lo k chunk rest
  write_chunk-Written lo k chunk rest pos inside short e =
      let (packed, sliced, is_packed, packed_bits) =
        packed_slice-bits rows validity lo k is_validity pos inside in
      let encodes =
        map_codec-eq-ok (encode_chunk b plain compression dt (part lo k) packed k) chunk
          (sym (write_chunk-eq lo k packed inside sliced) ∙ e) in
      record {
        packed = packed;
        is_packed = is_packed;
        packed_bits = packed_bits;
        framed =
            encode_chunk-Framed b plain compression dt (part lo k) packed k chunk rest short
              encodes;
        decodes =
            ap (decode_chunk b plain compression dt) (sym (append-nil chunk))
            ∙ decode_chunk-encode_chunk b plain compression dt (part lo k) packed k chunk []
                lossless width
                (take-IsBytes (k * size_of dt) _ (drop-IsBytes (lo * size_of dt) values bytes))
                (omega arith) (inl pos) short
                (packed-HasSize compression dt (part lo k) k packed
                  (omega (arith, length-take (k * size_of dt) (drop (lo * size_of dt) values)))
                  is_packed (omega arith))
                encodes;
      }

  -- A round decodes a chunk that was written.
  pub decode_round :
      (lo k : ℕ) (work : Working) (pre chunk rest : List ℕ)
      → Progress lo work
      → 0 < k
      → lo + k ≤ rows
      → Written lo k chunk rest
      → (work' : Working) × Progress (lo + k) work'
        × ((fuel : ℕ)
            → decode_loop b plain compression dt
                (pre ++ (chunk ++ rest))
                (suc fuel)
                (length pre)
                work
                lo
              ≡ decode_loop b plain compression dt
                  (pre ++ (chunk ++ rest))
                  fuel
                  (length pre + length chunk)
                  work'
                  (lo + k))
  decode_round lo k work pre chunk rest p pos inside w =
      let (dst', merges, merged) =
        merge_validity-Merged rows p.target w.packed lo k p.is_target w.is_packed pos inside in
      (
        record { values = copied lo k work; validity = some dst' },
        round-Progress lo k work w.packed dst' p inside merged w.packed_bits,
        λ fuel.
            decode_loop-round lo k fuel work pre chunk rest (copied lo k work) w.packed p.target
              dst' w.framed.header p.has_bits w.framed.parsed w.framed.measures w.decodes
              (copy_from_slice-eq lo k work p inside) merges,
      )
