-- ===== src/Format/MetaHeader.antt =====
-- `MetaHeader` of crates/splayed-format/src/meta.rs: the 64 bytes at the front of a META file. The
-- three bytes of `reserved0` are one number.
pub mod Laws
use stkoe_data.Base.{ℕ, ◌+◌, ◌*◌, ◌%◌, ◌^◌, List, [], ◌++◌, length, take, drop, le_bytes, from_le}
use stkoe_data.Base.{Bool, true, false, Result, ok, err, panic, guard, ◌>>=◌, ◌>>◌, ◌==◌, leb}
use stkoe_data.Format.Errors.{FormatError, size_mismatch, bad_magic, bad_version}
use stkoe_data.Format.Layout.{meta_magic, format_version, header_size}
use stkoe_data.Format.TimeType
use stkoe_data.Format.TimeType.{TimeType}

pub record MetaHeader : Type 0 where
  pub magic : ℕ
  pub version : ℕ
  pub flags : ℕ
  pub time_type : ℕ
  pub reserved0 : ℕ
  pub generation : ℕ
  pub time_count : ℕ
  pub sym_count : ℕ
  pub row_count : ℕ
  pub reserved1 : ℕ
  pub sym_dict_offset : ℕ
  pub sym_index_offset : ℕ
  pub file_size : ℕ

unfoldable pub new_header : TimeType → ℕ → ℕ → ℕ → ℕ → ℕ → ℕ → ℕ → MetaHeader
new_header time_type generation time_count sym_count row_count sym_dict_offset sym_index_offset
      file_size =
    record {
      magic = meta_magic;
      version = format_version;
      flags = 0;
      time_type = TimeType.id time_type;
      reserved0 = 0;
      generation = generation;
      time_count = time_count;
      sym_count = sym_count;
      row_count = row_count;
      reserved1 = 0;
      sym_dict_offset = sym_dict_offset;
      sym_index_offset = sym_index_offset;
      file_size = file_size;
    }

unfoldable pub to_bytes : MetaHeader → List ℕ
to_bytes h =
    le_bytes 8 h.magic
    ++ (le_bytes 2 h.version
        ++ (le_bytes 2 h.flags
            ++ (le_bytes 1 h.time_type
                ++ (le_bytes 3 h.reserved0
                    ++ (le_bytes 8 h.generation
                        ++ (le_bytes 4 h.time_count
                            ++ (le_bytes 4 h.sym_count
                                ++ (le_bytes 4 h.row_count
                                    ++ (le_bytes 4 h.reserved1
                                        ++ (le_bytes 8 h.sym_dict_offset
                                            ++ (le_bytes 8 h.sym_index_offset
                                                ++ le_bytes 8 h.file_size)))))))))))

-- The number of `k` bytes at `offset`.
abbrev field_at : List ℕ → ℕ → ℕ → ℕ
field_at bytes offset k = from_le (take k (drop offset bytes))

-- `bytemuck::pod_read_unaligned`
unfoldable pub pod_read : List ℕ → MetaHeader
pod_read bytes = record {
  magic = field_at bytes 0 8;
  version = field_at bytes 8 2;
  flags = field_at bytes 10 2;
  time_type = field_at bytes 12 1;
  reserved0 = field_at bytes 13 3;
  generation = field_at bytes 16 8;
  time_count = field_at bytes 24 4;
  sym_count = field_at bytes 28 4;
  row_count = field_at bytes 32 4;
  reserved1 = field_at bytes 36 4;
  sym_dict_offset = field_at bytes 40 8;
  sym_index_offset = field_at bytes 48 8;
  file_size = field_at bytes 56 8;
}

unfoldable pub validate : MetaHeader → Result FormatError (Unit {0})
validate h = do
  guard (h.magic == meta_magic) (bad_magic meta_magic h.magic)
  guard (h.version == format_version) (bad_version format_version h.version)
  time_type ← TimeType.from_id h.time_type
  ok tt

unfoldable pub from_bytes : List ℕ → Result FormatError MetaHeader
from_bytes bytes = do
  guard (leb header_size (length bytes)) (size_mismatch header_size (length bytes))
  let header = pod_read bytes
  validate header
  ok header

unfoldable pub time_type_size : MetaHeader → ℕ
time_type_size h = elim (TimeType.from_id h.time_type) [
  | ok t ↦ TimeType.size_of t
  | err e ↦ 0
  | panic ↦ 0
]
