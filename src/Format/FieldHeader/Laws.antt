-- ===== src/Format/FieldHeader/Laws.antt =====
-- Reading a FIELD header from its bytes.
use stkoe_data.Base.{
  ℕ, ◌+◌, ◌*◌, ◌^◌, ◌<◌, ◌≤◌, ◌≡◌, refl, bit_and, bit_or, List, ◌++◌, length, le_bytes,
}
use stkoe_data.Base.{Bool, true, false, ok, ◌>>◌, le→leb, arith, from_le-le_bytes_of_lt}
use stkoe_data.Base.{if◌then◌else◌}
use stkoe_data.Format.DataType.{size_of-le}
use stkoe_data.Base.{◌∙◌, ◌/◌, bit_and_step, bit_or_step, bit_or-zero, bit_and_mask}
use stkoe_data.Format.Layout.{header_size}
use stkoe_data.Format.DataType
use stkoe_data.Format.DataType.{DataType}
use stkoe_data.Format.Encoding
use stkoe_data.Format.Compression
use stkoe_data.Format.FieldHeader.{
  FieldHeader, to_bytes, from_bytes, pod_read, validate, new_uncompressed, has_validity,
  set_has_validity,
}

-- Each field fits its integer type.
pub record Fits (h : FieldHeader) : Type 0 where
  pub magic : h.magic < 2 ^ 64
  pub version : h.version < 2 ^ 16
  pub flags : h.flags < 2 ^ 16
  pub data_type : h.data_type < 2 ^ 8
  pub encoding : h.encoding < 2 ^ 8
  pub compression : h.compression < 2 ^ 8
  pub reserved0 : h.reserved0 < 2 ^ 8
  pub generation : h.generation < 2 ^ 64
  pub row_count : h.row_count < 2 ^ 32
  pub null_count : h.null_count < 2 ^ 32
  pub reserved1 : h.reserved1 < 2 ^ 32
  pub reserved2 : h.reserved2 < 2 ^ 32
  pub data_length : h.data_length < 2 ^ 64
  pub validity_offset : h.validity_offset < 2 ^ 64
  pub reserved3 : h.reserved3 < 2 ^ 64

pod_read-to_bytes : (h : FieldHeader) (rest : List ℕ) → Fits h → pod_read (to_bytes h ++ rest) ≡ h
unfolding pod_read to_bytes le_bytes
pod_read-to_bytes h rest f = λ i. record {
  magic = from_le-le_bytes_of_lt 8 h.magic f.magic i;
  version = from_le-le_bytes_of_lt 2 h.version f.version i;
  flags = from_le-le_bytes_of_lt 2 h.flags f.flags i;
  data_type = from_le-le_bytes_of_lt 1 h.data_type f.data_type i;
  encoding = from_le-le_bytes_of_lt 1 h.encoding f.encoding i;
  compression = from_le-le_bytes_of_lt 1 h.compression f.compression i;
  reserved0 = from_le-le_bytes_of_lt 1 h.reserved0 f.reserved0 i;
  generation = from_le-le_bytes_of_lt 8 h.generation f.generation i;
  row_count = from_le-le_bytes_of_lt 4 h.row_count f.row_count i;
  null_count = from_le-le_bytes_of_lt 4 h.null_count f.null_count i;
  reserved1 = from_le-le_bytes_of_lt 4 h.reserved1 f.reserved1 i;
  reserved2 = from_le-le_bytes_of_lt 4 h.reserved2 f.reserved2 i;
  data_length = from_le-le_bytes_of_lt 8 h.data_length f.data_length i;
  validity_offset = from_le-le_bytes_of_lt 8 h.validity_offset f.validity_offset i;
  reserved3 = from_le-le_bytes_of_lt 8 h.reserved3 f.reserved3 i;
}

header-long : (h : FieldHeader) (rest : List ℕ) → header_size ≤ length (to_bytes h ++ rest)
unfolding to_bytes le_bytes
header-long h rest = omega arith

-- Whatever follows the bytes of a header, reading gives the header back when it is valid, and the
-- error of its validation when it is not.
-- The condition: each field fits its integer type.
pub from_bytes-to_bytes_field :
    (h : FieldHeader) (rest : List ℕ)
    → Fits h
    → from_bytes (to_bytes h ++ rest) ≡ (validate h >> ok h)
unfolding from_bytes
from_bytes-to_bytes_field h rest f =
    rw
      (
        le→leb header_size (length (to_bytes h ++ rest)) (header-long h rest),
        pod_read-to_bytes h rest f,
      )
      refl

new_uncompressed-has_validity :
    (data_type : DataType) (generation row_count null_count : ℕ) (validity : Bool)
    → has_validity (new_uncompressed data_type generation row_count null_count validity) ≡ validity
unfolding has_validity new_uncompressed
new_uncompressed-has_validity data_type generation row_count null_count true = refl
new_uncompressed-has_validity data_type generation row_count null_count false = refl

new_uncompressed-validity_offset :
    (data_type : DataType) (generation row_count null_count : ℕ) (validity : Bool)
    → row_count < 2 ^ 32
    → (new_uncompressed data_type generation row_count null_count validity).validity_offset
      ≡ (if validity then 64 + row_count * DataType.size_of data_type else 0)
unfolding new_uncompressed
new_uncompressed-validity_offset data_type generation row_count null_count true r =
    let small : row_count * DataType.size_of data_type ≤ row_count * 8 =
      let w = size_of-le data_type in grind arith in
    omega arith
new_uncompressed-validity_offset data_type generation row_count null_count false r = refl

module _ (data_type : DataType) (generation row_count null_count : ℕ) (validity : Bool) where
  abbrev pub fresh : FieldHeader
  fresh = new_uncompressed data_type generation row_count null_count validity

  id-lt : DataType.id data_type < 2 ^ 8
  unfolding DataType.id
  id-lt = ground arith

  pub fresh-Fits : generation < 2 ^ 64 → row_count < 2 ^ 32 → null_count < 2 ^ 32 → Fits fresh
  unfolding new_uncompressed Encoding.id Compression.id
  fresh-Fits g r n = record {
    magic = omega arith;
    version = omega arith;
    flags = ground arith;
    data_type = id-lt;
    encoding = omega arith;
    compression = omega arith;
    reserved0 = omega arith;
    generation = g;
    row_count = r;
    null_count = n;
    reserved1 = omega arith;
    reserved2 = omega arith;
    data_length = omega arith;
    validity_offset = ground arith;
    reserved3 = omega arith;
  }

  fresh-valid : validate fresh ≡ ok tt
  unfolding new_uncompressed validate Encoding.id Compression.id Encoding.from_id
      Compression.from_id
  fresh-valid = rw (DataType.from_id-id data_type) refl

  -- The header of a plain file is read back from its bytes, whatever follows them, has the
  -- validity region it was asked for, and places it behind the values.
  -- The conditions: the generation is a `u64` and the two counts are `u32`.
  pub from_bytes-new_uncompressed :
      (rest : List ℕ)
      → generation < 2 ^ 64
      → row_count < 2 ^ 32
      → null_count < 2 ^ 32
      → (from_bytes (to_bytes fresh ++ rest) ≡ ok fresh)
        × (has_validity fresh ≡ validity)
        × (fresh.validity_offset
            ≡ (if validity then 64 + row_count * DataType.size_of data_type else 0))
  from_bytes-new_uncompressed rest g r n = (
    from_bytes-to_bytes_field fresh rest (fresh-Fits g r n) ∙ rw fresh-valid refl,
    new_uncompressed-has_validity data_type generation row_count null_count validity,
    new_uncompressed-validity_offset data_type generation row_count null_count validity r,
  )

-- The flag is what it was set to, and the other bits of the flags are left alone.
-- The condition: the flags are a `u16`.
pub has_validity-set_has_validity :
    (h : FieldHeader) (value : Bool)
    → h.flags < 2 ^ 16
    → (has_validity (set_has_validity h value) ≡ value)
      × ((set_has_validity h value).flags / 2 ≡ h.flags / 2)
unfolding has_validity set_has_validity
has_validity-set_has_validity h true small =
    let step = bit_or_step h.flags 1 in
    let rest = bit_or-zero 15 (h.flags / 2) (omega arith) in
    let low = bit_and_mask 1 (bit_or h.flags 1) in
    (ground (arith, step, rest, low), omega (arith, step, rest))
has_validity-set_has_validity h false small =
    let step = bit_and_step h.flags 65534 in
    let rest = bit_and_mask 15 (h.flags / 2) in
    let low = bit_and_mask 1 (bit_and h.flags 65534) in
    (ground (arith, step, rest, low), omega (arith, step, rest))
