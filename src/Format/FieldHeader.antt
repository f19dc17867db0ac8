-- ===== src/Format/FieldHeader.antt =====
-- crates/splayed-format/src/field.rs: the 64 bytes at the front of a FIELD file, as `bytemuck`
-- lays a `repr(C)` struct out on a little-endian machine.
pub mod Laws
use stkoe_data.Base.{
  ℕ, ◌+◌, ◌*◌, ◌-◌, ◌%◌, ◌^◌, bit_and, bit_or, bit_xor, List, [], ◌++◌, length, take, drop,
  le_bytes, from_le,
}
use stkoe_data.Base.{
  Bool, true, false, not, ◌&&◌, ◌||◌, Result, ok, guard, ◌>>=◌, ◌>>◌, ◌==◌, leb, ltb, if◌then◌else◌,
}
use stkoe_data.Format.Errors.{FormatError, size_mismatch, bad_magic, bad_version}
use stkoe_data.Format.Layout.{field_magic, format_version, header_size}
use stkoe_data.Format.Layout
use stkoe_data.Format.DataType
use stkoe_data.Format.DataType.{DataType}
use stkoe_data.Format.Encoding
use stkoe_data.Format.Encoding.{Encoding, plain}
use stkoe_data.Format.Compression
use stkoe_data.Format.Compression.{Compression}

abbrev pub has_validity_flag : ℕ
has_validity_flag = 1

pub record FieldHeader : Type 0 where
  pub magic : ℕ
  pub version : ℕ
  pub flags : ℕ
  pub data_type : ℕ
  pub encoding : ℕ
  pub compression : ℕ
  pub reserved0 : ℕ
  pub generation : ℕ
  pub row_count : ℕ
  pub null_count : ℕ
  pub reserved1 : ℕ
  pub reserved2 : ℕ
  pub data_length : ℕ
  pub validity_offset : ℕ
  pub reserved3 : ℕ

unfoldable pub new_uncompressed : DataType → ℕ → ℕ → ℕ → Bool → FieldHeader
new_uncompressed data_type generation row_count null_count has_validity =
    let data_length = row_count * DataType.size_of data_type % 2 ^ 64 in
    record {
      magic = field_magic;
      version = format_version;
      flags = if has_validity then has_validity_flag else 0;
      data_type = DataType.id data_type;
      encoding = Encoding.id plain;
      compression = Compression.id Compression.none;
      reserved0 = 0;
      generation = generation;
      row_count = row_count;
      null_count = null_count;
      reserved1 = 0;
      reserved2 = 0;
      data_length = data_length;
      validity_offset = if has_validity then (64 + data_length) % 2 ^ 64 else 0;
      reserved3 = 0;
    }

unfoldable pub to_bytes : FieldHeader → List ℕ
to_bytes h =
    le_bytes 8 h.magic
    ++ (le_bytes 2 h.version
        ++ (le_bytes 2 h.flags
            ++ (le_bytes 1 h.data_type
                ++ (le_bytes 1 h.encoding
                    ++ (le_bytes 1 h.compression
                        ++ (le_bytes 1 h.reserved0
                            ++ (le_bytes 8 h.generation
                                ++ (le_bytes 4 h.row_count
                                    ++ (le_bytes 4 h.null_count
                                        ++ (le_bytes 4 h.reserved1
                                            ++ (le_bytes 4 h.reserved2
                                                ++ (le_bytes 8 h.data_length
                                                    ++ (le_bytes 8 h.validity_offset
                                                        ++ le_bytes 8 h.reserved3)))))))))))))

-- The number of `k` bytes at `offset`.
abbrev field_at : List ℕ → ℕ → ℕ → ℕ
field_at bytes offset k = from_le (take k (drop offset bytes))

-- `bytemuck::pod_read_unaligned`
unfoldable pub pod_read : List ℕ → FieldHeader
pod_read bytes = record {
  magic = field_at bytes 0 8;
  version = field_at bytes 8 2;
  flags = field_at bytes 10 2;
  data_type = field_at bytes 12 1;
  encoding = field_at bytes 13 1;
  compression = field_at bytes 14 1;
  reserved0 = field_at bytes 15 1;
  generation = field_at bytes 16 8;
  row_count = field_at bytes 24 4;
  null_count = field_at bytes 28 4;
  reserved1 = field_at bytes 32 4;
  reserved2 = field_at bytes 36 4;
  data_length = field_at bytes 40 8;
  validity_offset = field_at bytes 48 8;
  reserved3 = field_at bytes 56 8;
}

unfoldable pub validate : FieldHeader → Result FormatError (Unit {0})
validate h = do
  guard (h.magic == field_magic) (bad_magic field_magic h.magic)
  guard (h.version == format_version) (bad_version format_version h.version)
  data_type ← DataType.from_id h.data_type
  encoding ← Encoding.from_id h.encoding
  compression ← Compression.from_id h.compression
  ok tt

unfoldable pub from_bytes : List ℕ → Result FormatError FieldHeader
from_bytes bytes = do
  guard (leb header_size (length bytes)) (size_mismatch header_size (length bytes))
  let header = pod_read bytes
  validate header
  ok header

unfoldable pub has_validity : FieldHeader → Bool
has_validity h = not (bit_and h.flags has_validity_flag == 0)

-- The complement is that of a `u16`.
unfoldable pub set_has_validity : FieldHeader → Bool → FieldHeader
set_has_validity h value = record {
  magic = h.magic;
  version = h.version;
  flags =
      if value
      then bit_or h.flags has_validity_flag
      else bit_and h.flags (2 ^ 16 - 1 - has_validity_flag);
  data_type = h.data_type;
  encoding = h.encoding;
  compression = h.compression;
  reserved0 = h.reserved0;
  generation = h.generation;
  row_count = h.row_count;
  null_count = h.null_count;
  reserved1 = h.reserved1;
  reserved2 = h.reserved2;
  data_length = h.data_length;
  validity_offset = h.validity_offset;
  reserved3 = h.reserved3;
}

unfoldable pub validity_size : FieldHeader → ℕ
unfolding has_validity
validity_size h = if has_validity h then Layout.validity_size h.row_count else 0

unfoldable pub is_chunked : FieldHeader → Bool
is_chunked h =
    not (h.encoding == Encoding.id plain) || not (h.compression == Compression.id Compression.none)

unfoldable pub is_all_null : FieldHeader → Bool
is_all_null h = ltb 0 h.row_count && (h.null_count == h.row_count)
