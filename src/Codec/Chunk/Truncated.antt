-- ===== src/Codec/Chunk/Truncated.antt =====
-- A chunk that is cut short.
use mathlib.Core.Path.{subst}
use native.Mathlib.Nat.{mod-eq_of_lt}
use stkoe_data.Base.{
  ℕ, suc, ◌+◌, ◌-◌, ◌^◌, ◌<◌, ◌≡◌, sym, ap, ◌∙◌, List, [], ◌∷◌, ◌++◌, Bool-cases, inl, inr,
}
use stkoe_data.Base.{length, take, ok, err, Option, arith, length-append, length-take, leb}
use stkoe_data.Format.DataType.{DataType}
use stkoe_data.Format.Encoding.{Encoding}
use stkoe_data.Format.Compression.{Compression}
use stkoe_data.Codec.Errors.{Codec, truncated}
use stkoe_data.Codec.Compression.{Backends}
use stkoe_data.Codec.Chunk.{
  ChunkHeader, as_u32, chunk_header_size, to_bytes, from_bytes, encode_chunk, decode_chunk,
}
use stkoe_data.Codec.Chunk.Header.{Fits, length-to_bytes, from_bytes-to_bytes}
use stkoe_data.Codec.Chunk.Laws.{encode_chunk-Encoded}

-- The error of bytes that end too early.
abbrev pub IsTruncated : {A : Type 0} → Codec A → Type 0
IsTruncated r = (needed : ℕ) × (got : ℕ) × (got < needed) × (r ≡ err (truncated needed got))

take-append_more {ℓ} :
    {A : Type ℓ} (xs ys : List A) (k : ℕ) → take (length xs + k) (xs ++ ys) ≡ xs ++ take k ys
take-append_more [] ys k = ap (λ n. take n ys) (let e : 0 + k ≡ k = omega arith in e)
take-append_more (x ∷ xs) ys k =
    ap (λ n. take n (x ∷ (xs ++ ys)))
      (let e : suc (length xs) + k ≡ suc (length xs + k) = omega arith in e)
    ∙ ap (λ t. x ∷ t) (take-append_more xs ys k)

header-Fits :
    (rows values_len payload_len : ℕ) (h : ChunkHeader)
    → h ≡ record {
      rows = as_u32 rows;
      values_len = as_u32 values_len;
      payload_len = as_u32 payload_len;
    }
    → Fits h
header-Fits rows values_len payload_len h e =
    subst Fits (sym e) (record {
      rows_fit = omega arith;
      values_len_fit = omega arith;
      payload_len_fit = omega arith;
    })

module _ (b : Backends) (encoding : Encoding) (compression : Compression)
    (data_type : DataType) where
  short_header :
      (bytes : List ℕ)
      → length bytes < chunk_header_size
      → IsTruncated (decode_chunk b encoding compression data_type bytes)
  unfolding decode_chunk from_bytes
  short_header bytes h = (chunk_header_size, length bytes, h, ground arith)

  short_payload :
      (header : ChunkHeader) (part : List ℕ)
      → Fits header
      → length part < header.payload_len
      → IsTruncated (decode_chunk b encoding compression data_type (to_bytes header ++ part))
  unfolding decode_chunk
  short_payload header part fits h =
      let total = length-append (to_bytes header) part in
      let small = length-to_bytes header in
      (
        chunk_header_size + header.payload_len,
        length (to_bytes header ++ part),
        omega arith,
        rw (from_bytes-to_bytes header part fits) (ground arith),
      )

  -- Whatever number of bytes is cut from the end of a chunk that `encode_chunk` has written,
  -- `decode_chunk` refuses the rest as truncated.
  -- The conditions: the lengths fit the `u32` fields of the header.
  pub decode_chunk-take :
      (values : List ℕ) (validity : Option (List ℕ)) (rows : ℕ) (chunk : List ℕ) (k : ℕ)
      → encode_chunk b encoding compression data_type values validity rows ≡ ok chunk
      → length chunk < 2 ^ 32
      → k < length chunk
      → IsTruncated (decode_chunk b encoding compression data_type (take k chunk))
  decode_chunk-take values validity rows chunk k e short h =
      let r = encode_chunk-Encoded b encoding compression data_type values validity rows chunk e in
      let laid = ap length r.laid_out ∙ length-append (to_bytes r.header) r.payload in
      let head = length-to_bytes r.header in
      let exact =
        ap (λ (h : ChunkHeader). h.payload_len) r.header_is ∙ mod-eq_of_lt (omega arith) in
      elim (Bool-cases (leb chunk_header_size k)) [
        | inl q ↦
            let past = k - chunk_header_size in
            let cut : take k chunk ≡ to_bytes r.header ++ take past r.payload =
              ap (take k) r.laid_out
              ∙ ap (λ n. take n (to_bytes r.header ++ r.payload)) (ground (arith, head))
              ∙ take-append_more (to_bytes r.header) r.payload past in
            subst (λ c. IsTruncated (decode_chunk b encoding compression data_type c)) (sym cut)
              (short_payload r.header (take past r.payload) (header-Fits _ _ _ r.header r.header_is)
                (ground (arith, exact, laid, head, length-take past r.payload)))
        | inr q ↦ short_header (take k chunk) (ground (arith, length-take k chunk))
      ]
