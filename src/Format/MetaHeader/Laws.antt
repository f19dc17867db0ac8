-- ===== src/Format/MetaHeader/Laws.antt =====
-- Reading a META header from its bytes.
use stkoe_data.Base.{ℕ, ◌^◌, ◌<◌, ◌≤◌, ◌≡◌, refl, List, ◌++◌, length, le_bytes}
use stkoe_data.Base.{ok, ◌>>◌, le→leb, arith, from_le-le_bytes_of_lt}
use stkoe_data.Format.Layout.{header_size}
use stkoe_data.Format.TimeType
use stkoe_data.Format.TimeType.{TimeType}
use stkoe_data.Format.MetaHeader.{
  MetaHeader, to_bytes, from_bytes, pod_read, validate, new_header, time_type_size,
}

-- Each field fits its integer type.
pub record Fits (h : MetaHeader) : Type 0 where
  pub magic : h.magic < 2 ^ 64
  pub version : h.version < 2 ^ 16
  pub flags : h.flags < 2 ^ 16
  pub time_type : h.time_type < 2 ^ 8
  pub reserved0 : h.reserved0 < 2 ^ 24
  pub generation : h.generation < 2 ^ 64
  pub time_count : h.time_count < 2 ^ 32
  pub sym_count : h.sym_count < 2 ^ 32
  pub row_count : h.row_count < 2 ^ 32
  pub reserved1 : h.reserved1 < 2 ^ 32
  pub sym_dict_offset : h.sym_dict_offset < 2 ^ 64
  pub sym_index_offset : h.sym_index_offset < 2 ^ 64
  pub file_size : h.file_size < 2 ^ 64

pod_read-to_bytes : (h : MetaHeader) (rest : List ℕ) → Fits h → pod_read (to_bytes h ++ rest) ≡ h
unfolding pod_read to_bytes le_bytes
pod_read-to_bytes h rest f = λ i. record {
  magic = from_le-le_bytes_of_lt 8 h.magic f.magic i;
  version = from_le-le_bytes_of_lt 2 h.version f.version i;
  flags = from_le-le_bytes_of_lt 2 h.flags f.flags i;
  time_type = from_le-le_bytes_of_lt 1 h.time_type f.time_type i;
  reserved0 = from_le-le_bytes_of_lt 3 h.reserved0 f.reserved0 i;
  generation = from_le-le_bytes_of_lt 8 h.generation f.generation i;
  time_count = from_le-le_bytes_of_lt 4 h.time_count f.time_count i;
  sym_count = from_le-le_bytes_of_lt 4 h.sym_count f.sym_count i;
  row_count = from_le-le_bytes_of_lt 4 h.row_count f.row_count i;
  reserved1 = from_le-le_bytes_of_lt 4 h.reserved1 f.reserved1 i;
  sym_dict_offset = from_le-le_bytes_of_lt 8 h.sym_dict_offset f.sym_dict_offset i;
  sym_index_offset = from_le-le_bytes_of_lt 8 h.sym_index_offset f.sym_index_offset i;
  file_size = from_le-le_bytes_of_lt 8 h.file_size f.file_size i;
}

header-long : (h : MetaHeader) (rest : List ℕ) → header_size ≤ length (to_bytes h ++ rest)
unfolding to_bytes le_bytes
header-long h rest = omega arith

-- Whatever follows the bytes of a META header, reading gives the header back when it is valid, and
-- the error of its validation when it is not.
-- The condition: each field fits its integer type.
pub from_bytes-to_bytes_meta :
    (h : MetaHeader) (rest : List ℕ)
    → Fits h
    → from_bytes (to_bytes h ++ rest) ≡ (validate h >> ok h)
unfolding from_bytes
from_bytes-to_bytes_meta h rest f =
    rw
      (
        le→leb header_size (length (to_bytes h ++ rest)) (header-long h rest),
        pod_read-to_bytes h rest f,
      )
      refl

-- A new META header is valid, and its time type has the width of the type it was made for.
pub validate-new_header :
    (t : TimeType) (generation time_count sym_count row_count dict index size : ℕ)
    → (validate (new_header t generation time_count sym_count row_count dict index size) ≡ ok tt)
      × (time_type_size (new_header t generation time_count sym_count row_count dict index size)
          ≡ TimeType.size_of t)
unfolding validate new_header time_type_size
validate-new_header t generation time_count sym_count row_count dict index size =
    (rw (TimeType.from_id-id t) refl, rw (TimeType.from_id-id t, time_type_size) refl)
