-- ===== src/Format/Column.antt =====
-- `Column` of crates/splayed-format/src/column.rs: a column that owns its buffers.
pub mod Views
pub mod Cuts
pub mod Slices
use stkoe_data.Base.{
  ℕ, ◌*◌, ◌/◌, List, [], ◌∷◌, ◌++◌, length, replicate, le_bytes, get_or, Bool, Option, none, some,
  ok, assert, ◌>>=◌, ◌>>◌, ◌==◌, leb, ◌&&◌, not, if◌then◌else◌,
}
use stkoe_data.Format.DataType
use stkoe_data.Format.DataType.{DataType, size_of}
use stkoe_data.Format.Bitmap.{Bitmap, Checked, as_view, view_null_count, zeros}

pub record DictBuffers : Type 0 where
  pub offsets : List ℕ
  pub strings : List ℕ

pub record Column : Type 0 where
  pub data_type : DataType
  pub values : List ℕ
  pub validity : Option Bitmap
  pub dict : Option DictBuffers

-- Keys of 4 bytes stand in the values of a `Utf8` column. No other width is 0.
unfoldable pub column_length : Column → ℕ
unfolding size_of
column_length c = elim c.data_type [
  | DataType.utf8 ↦ length c.values / 4
  | t ↦ length c.values / size_of t
]

unfoldable pub column_null_count : Column → Checked ℕ
unfolding as_view view_null_count
column_null_count c = elim c.validity [
  | none ↦ ok 0
  | some b ↦ as_view b >>= λ v. view_null_count v
]

unfoldable pub zeroed : DataType → ℕ → Bool → Checked Column
unfolding size_of zeros
zeroed data_type rows all_null = do
  assert (not (DataType.id data_type == DataType.id DataType.utf8))
  ok (record {
    data_type = data_type;
    values = replicate (rows * size_of data_type) 0;
    validity = if all_null then some (zeros rows) else none;
    dict = none;
  })

-- `flat_map(to_le_bytes)` of numbers of `k` bytes.
unfoldable pub flat_bytes : ℕ → List ℕ → List ℕ
unfolding le_bytes
flat_bytes k [] = []
flat_bytes k (n ∷ numbers) = le_bytes k n ++ flat_bytes k numbers

unfoldable pub from_dict : List ℕ → List ℕ → List ℕ → Option Bitmap → Checked Column
unfolding flat_bytes
from_dict keys offsets strings validity = do
  assert (leb 2 (length offsets) && (get_or offsets 0 1 == 0))
  ok (record {
    data_type = DataType.utf8;
    values = flat_bytes 4 keys;
    validity = validity;
    dict = some (record { offsets = flat_bytes 8 offsets; strings = strings });
  })
