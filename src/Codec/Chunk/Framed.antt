-- ===== src/Codec/Chunk/Framed.antt =====
-- The header at the front of a chunk that was written, whatever follows the chunk.
use native.Mathlib.Nat.{mod-eq_of_lt}
use stkoe_data.Base.{ℕ, ◌+◌, ◌-◌, ◌^◌, ◌<◌, ◌≡◌, ap, ◌∙◌, List, ◌++◌, append_assoc}
use stkoe_data.Base.{length, ok, Option, arith, length-append}
use stkoe_data.Format.DataType.{DataType}
use stkoe_data.Format.Encoding.{Encoding}
use stkoe_data.Format.Compression.{Compression}
use stkoe_data.Codec.Compression.{Backends}
use stkoe_data.Codec.Chunk.{
  ChunkHeader, chunk_header_size, to_bytes, from_bytes, as_u32, encode_chunk, validity_bytes,
}
use stkoe_data.Codec.Chunk.Header.{length-to_bytes, from_bytes-to_bytes}
use stkoe_data.Codec.Chunk.Laws.{encode_chunk-Encoded}

-- A header in front of `chunk`, that says how long the chunk is.
pub record Framed (chunk rest : List ℕ) (rows : ℕ) : Type 0 where
  pub header : ChunkHeader
  pub parsed : from_bytes (chunk ++ rest) ≡ ok header
  pub measures : chunk_header_size + header.payload_len ≡ length chunk
  pub counts : header.rows ≡ as_u32 rows

pub encode_chunk-Framed :
    (b : Backends) (encoding : Encoding) (compression : Compression) (data_type : DataType)
    (values : List ℕ) (validity : Option (List ℕ)) (rows : ℕ) (chunk rest : List ℕ)
    → length chunk < 2 ^ 32
    → encode_chunk b encoding compression data_type values validity rows ≡ ok chunk
    → Framed chunk rest rows
encode_chunk-Framed b encoding compression data_type values validity rows chunk rest short e =
    let r = encode_chunk-Encoded b encoding compression data_type values validity rows chunk e in
    let long : length chunk ≡ 12 + length r.payload =
      ap length r.laid_out
      ∙ length-append (to_bytes r.header) r.payload
      ∙ ap (λ (k : ℕ). k + length r.payload) (length-to_bytes r.header) in
    let payload : r.header.payload_len ≡ length r.payload =
      ap (λ (h : ChunkHeader). h.payload_len) r.header_is ∙ mod-eq_of_lt (omega (arith, long)) in
    let rows' : r.header.rows ≡ as_u32 rows = ap (λ (h : ChunkHeader). h.rows) r.header_is in
    let values' : r.header.values_len
        ≡ as_u32
            (length (r.encoded ++ validity_bytes validity) - length (validity_bytes validity)) =
      ap (λ (h : ChunkHeader). h.values_len) r.header_is in
    record {
      header = r.header;
      parsed =
          ap (λ c. from_bytes (c ++ rest)) r.laid_out
          ∙ (ap from_bytes (append_assoc (to_bytes r.header) r.payload rest)
              ∙ from_bytes-to_bytes r.header (r.payload ++ rest) (record {
                rows_fit = omega (arith, rows');
                values_len_fit = omega (arith, values');
                payload_len_fit = omega (arith, payload, long);
              }));
      measures = omega (arith, payload, long);
      counts = rows';
    }
