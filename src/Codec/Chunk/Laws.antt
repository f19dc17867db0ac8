-- ===== src/Codec/Chunk/Laws.antt =====
-- Reading a chunk that was written.
use mathlib.Core.Path.{subst}
use native.Mathlib.Nat.{mod-eq_of_lt}
use stkoe_data.Base.{ℕ, ◌+◌, ◌-◌, ◌*◌, ◌^◌, ◌<◌, ◌≡◌, refl, ap, ◌∙◌, List, ◌++◌, append_assoc}
use stkoe_data.Base.{
  length, ok, guard, Option, none, some, ◌>>=◌, >>=-eq-ok, IsBytes, arith, length-append,
}
use stkoe_data.Base.{◌⊎◌, take-append, drop-append, le→leb, ◌==◌, inl, inr}
use stkoe_data.Format.Layout.{validity_size}
use stkoe_data.Format.DataType.{DataType, size_of, IsWidth}
use stkoe_data.Format.Encoding.{Encoding}
use stkoe_data.Format.Compression.{Compression}
use stkoe_data.Codec.Encoding.{encode_values, decode_values}
use stkoe_data.Codec.Encoding.Laws.{decode_values-encode_values}
use stkoe_data.Codec.Encoding.Sizes.{length-encode_values-le}
use stkoe_data.Codec.Compression.{
  Backends, IsLossless, HasSize, compress, decompress, decompress-compress,
}
use stkoe_data.Codec.Chunk.{ChunkHeader, chunk_header_size, to_bytes, as_u32, validity_bytes}
use stkoe_data.Codec.Chunk.{check_validity, split_validity, encode_chunk, decode_chunk}
use stkoe_data.Codec.Chunk.Header.{Fits, length-to_bytes, from_bytes-to_bytes}

-- The validity region of a chunk: none, or as many bytes as the rows ask for.
abbrev pub FitsRows : Option (List ℕ) → ℕ → Type 0
FitsRows none rows = Unit {0}
FitsRows (some bits) rows = length bits ≡ validity_size rows

-- What a successful `encode_chunk` has computed on the way.
pub record Encoded (b : Backends) (encoding : Encoding) (compression : Compression)
    (data_type : DataType) (values : List ℕ) (validity : Option (List ℕ)) (rows : ℕ)
    (chunk : List ℕ) : Type 0 where
  pub encoded : List ℕ
  pub payload : List ℕ
  pub header : ChunkHeader
  pub sized : length values ≡ rows * size_of data_type
  pub validity_fits : FitsRows validity (as_u32 rows)
  pub encodes : encode_values encoding data_type values rows ≡ ok encoded
  pub compresses : compress b compression (encoded ++ validity_bytes validity) ≡ ok payload
  pub header_is : header ≡ record {
    rows = as_u32 rows;
    values_len =
        as_u32 (length (encoded ++ validity_bytes validity) - length (validity_bytes validity));
    payload_len = as_u32 (length payload);
  }
  pub laid_out : chunk ≡ to_bytes header ++ payload

check_validity-eq-ok :
    (validity : Option (List ℕ)) (rows : ℕ) (u : Unit {0})
    → check_validity validity rows ≡ ok u
    → FitsRows validity (as_u32 rows)
unfolding check_validity
check_validity-eq-ok none rows u e = tt
check_validity-eq-ok (some bits) rows u e = ground arith

pub encode_chunk-Encoded :
    (b : Backends) (encoding : Encoding) (compression : Compression) (data_type : DataType)
    (values : List ℕ) (validity : Option (List ℕ)) (rows : ℕ) (chunk : List ℕ)
    → encode_chunk b encoding compression data_type values validity rows ≡ ok chunk
    → Encoded b encoding compression data_type values validity rows chunk
unfolding encode_chunk
encode_chunk-Encoded b encoding compression data_type values validity rows chunk e =
    let (u, checked, e1) = >>=-eq-ok (guard (length values == rows * size_of data_type) _) _ e in
    let (v, checked', e2) = >>=-eq-ok (check_validity validity rows) _ e1 in
    let (encoded, encodes, e3) = >>=-eq-ok (encode_values encoding data_type values rows) _ e2 in
    let (payload, compresses, e4) =
      >>=-eq-ok (compress b compression (encoded ++ validity_bytes validity)) _ e3 in
    record {
      encoded = encoded;
      payload = payload;
      header = _;
      sized = ground arith;
      validity_fits = check_validity-eq-ok validity rows v checked';
      encodes = encodes;
      compresses = compresses;
      header_is = refl;
      laid_out = cc;
    }

split_validity-fits :
    (validity : Option (List ℕ)) (rows : ℕ)
    → FitsRows validity rows
    → (0 < rows) ⊎ (validity ≡ none)
    → split_validity (validity_bytes validity) rows ≡ ok validity
unfolding split_validity
split_validity-fits none rows f h = refl
split_validity-fits (some bits) rows f (inl h) = ground (arith, f)
split_validity-fits (some bits) rows f (inr h) = cc

-- `decode_chunk` on the parts of a chunk.
decode_chunk_parts :
    (b : Backends) (encoding : Encoding) (compression : Compression) (data_type : DataType)
    (header : ChunkHeader) (payload encoded bits rest values : List ℕ) (validity : Option (List ℕ))
    → Fits header
    → length payload ≡ header.payload_len
    → length encoded ≡ header.values_len
    → decompress b compression payload ≡ ok (encoded ++ bits)
    → decode_values encoding data_type encoded header.rows ≡ ok values
    → split_validity bits header.rows ≡ ok validity
    → decode_chunk b encoding compression data_type (to_bytes header ++ (payload ++ rest))
      ≡ ok (values, validity, header.rows)
unfolding decode_chunk
decode_chunk_parts b encoding compression data_type header payload encoded bits rest values validity
      fits sized sized' decompressed decoded split =
    let total = length-append (to_bytes header) (payload ++ rest) in
    let tail' = length-append payload rest in
    rw
      (
        from_bytes-to_bytes header (payload ++ rest) fits,
        le→leb (chunk_header_size + header.payload_len)
            (length (to_bytes header ++ (payload ++ rest)))
            (omega (arith, total, tail', length-to_bytes header)),
        drop-append chunk_header_size (to_bytes header) (payload ++ rest) (length-to_bytes header),
        take-append header.payload_len payload rest sized,
        decompressed,
        le→leb header.values_len (length (encoded ++ bits))
            (omega (arith, length-append encoded bits)),
        take-append header.values_len encoded bits sized',
        drop-append header.values_len encoded bits sized',
        decoded,
        split,
      )
      refl

-- Without wrap-around, the header says what it is meant to say.
header_exact :
    (rows : ℕ) (encoded bits payload : List ℕ)
    → rows < 2 ^ 32
    → length encoded < 2 ^ 32
    → length payload < 2 ^ 32
    → ◌≡◌ {A = ChunkHeader}
        (record {
          rows = as_u32 rows;
          values_len = as_u32 (length (encoded ++ bits) - length bits);
          payload_len = as_u32 (length payload);
        })
        (record { rows = rows; values_len = length encoded; payload_len = length payload })
header_exact rows encoded bits payload small small' small'' =
    let p = mod-eq_of_lt small in
    let q : as_u32 (length (encoded ++ bits) - length bits) ≡ length encoded =
      omega (arith, length-append encoded bits) in
    let w = mod-eq_of_lt small'' in λ i. record { rows = p i; values_len = q i; payload_len = w i }

-- A chunk that `encode_chunk` has written, with any bytes behind it, is read back by
-- `decode_chunk` as the same values, validity and row count.
-- The conditions: a type of 1, 2, 4 or 8 bytes, lossless compressors, few enough rows and a short
-- enough payload for the `u32` fields, no empty validity region on no rows, and for lz4 fewer than
-- 2^32 bytes to compress, which is the encoded values and the validity.
pub decode_chunk-encode_chunk :
    (b : Backends) (encoding : Encoding) (compression : Compression) (data_type : DataType)
    (values : List ℕ) (validity : Option (List ℕ)) (rows : ℕ) (chunk rest : List ℕ)
    → IsLossless b
    → IsWidth (size_of data_type)
    → IsBytes values
    → 12 * rows + 1 < 2 ^ 32
    → (0 < rows) ⊎ (validity ≡ none)
    → length chunk < 2 ^ 32
    → ((encoded : List ℕ)
        → encode_values encoding data_type values rows ≡ ok encoded
        → HasSize compression (encoded ++ validity_bytes validity))
    → encode_chunk b encoding compression data_type values validity rows ≡ ok chunk
    → decode_chunk b encoding compression data_type (chunk ++ rest) ≡ ok (values, validity, rows)
unfolding decode_chunk
decode_chunk-encode_chunk b encoding compression data_type values validity rows chunk rest lossless
      width bytes small inhabited short has_size e =
    let r = encode_chunk-Encoded b encoding compression data_type values validity rows chunk e in
    let long =
      length-encode_values-le data_type values rows width bytes r.sized encoding r.encoded
        r.encodes in
    let laid = ap length r.laid_out ∙ length-append (to_bytes r.header) r.payload in
    let small' : rows < 2 ^ 32 = omega arith in
    let header =
      r.header_is
      ∙ header_exact rows r.encoded (validity_bytes validity) r.payload small' (omega arith)
          (omega arith) in
    let exact = mod-eq_of_lt small' in
    ap (decode_chunk b encoding compression data_type) (
      ap (λ c. c ++ rest) (r.laid_out ∙ ap (λ h. to_bytes h ++ r.payload) header)
      ∙ append_assoc (to_bytes _) r.payload rest)
    ∙ decode_chunk_parts b encoding compression data_type _ r.payload r.encoded
        (validity_bytes validity) rest values validity
        (record { rows_fit = small'; values_len_fit = omega arith; payload_len_fit = omega arith })
        refl refl
        (decompress-compress b compression _ r.payload lossless (has_size r.encoded r.encodes)
          r.compresses)
        (subst (λ q. (q >>= λ payload. decode_values encoding data_type payload rows) ≡ ok values)
          r.encodes
          (decode_values-encode_values encoding data_type values rows width bytes small' r.sized))
        (split_validity-fits validity rows (subst (λ k. FitsRows validity k) exact r.validity_fits)
          inhabited)
