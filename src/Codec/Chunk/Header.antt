-- ===== src/Codec/Chunk/Header.antt =====
-- The plain header of a chunk.
use stkoe_data.Base.{ℕ, ◌^◌, ◌<◌, ◌≡◌, List, ◌++◌}
use stkoe_data.Base.{length, le_bytes, ok, length-append, length-le_bytes, from_le-le_bytes_of_lt}
use stkoe_data.Base.{arith, le→leb}
use stkoe_data.Codec.Chunk.{ChunkHeader, chunk_header_size, to_bytes, from_bytes}

-- Each field fits its `u32`.
pub record Fits (h : ChunkHeader) : Type 0 where
  pub rows_fit : h.rows < 2 ^ 32
  pub values_len_fit : h.values_len < 2 ^ 32
  pub payload_len_fit : h.payload_len < 2 ^ 32

pub length-to_bytes : (h : ChunkHeader) → length (to_bytes h) ≡ chunk_header_size
unfolding to_bytes
length-to_bytes h = omega (
  arith,
  length-append (le_bytes 4 h.rows) (le_bytes 4 h.values_len ++ le_bytes 4 h.payload_len),
  length-append (le_bytes 4 h.values_len) (le_bytes 4 h.payload_len),
  length-le_bytes 4 h.rows,
  length-le_bytes 4 h.values_len,
  length-le_bytes 4 h.payload_len,
)

-- The header is read back from its bytes, whatever follows them.
pub from_bytes-to_bytes :
    (h : ChunkHeader) (rest : List ℕ) → Fits h → from_bytes (to_bytes h ++ rest) ≡ ok h
unfolding from_bytes to_bytes le_bytes
from_bytes-to_bytes h rest f =
    rw
      (le→leb chunk_header_size (length (to_bytes h ++ rest))
        (omega (arith, length-append (to_bytes h) rest, length-to_bytes h)))
      (λ i. ok (record {
        rows = from_le-le_bytes_of_lt 4 h.rows f.rows_fit i;
        values_len = from_le-le_bytes_of_lt 4 h.values_len f.values_len_fit i;
        payload_len = from_le-le_bytes_of_lt 4 h.payload_len f.payload_len_fit i;
      }))
