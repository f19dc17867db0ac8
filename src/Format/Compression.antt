-- ===== src/Format/Compression.antt =====
-- `Compression` of crates/splayed-format/src/types.rs.
use stkoe_data.Base.{ℕ, Result, ok, err, ◌==◌, if◌then◌else◌, ◌≡◌, refl}
use stkoe_data.Format.Errors.{FormatError, unknown_compression}

pub data Compression : Type 0 where
  none zstd lz4 : Compression

unfoldable pub id : Compression → ℕ
id none = 0
id zstd = 1
id lz4 = 2

unfoldable pub from_id : ℕ → Result FormatError Compression
from_id n =
    if n == 0
    then ok none
    else if n == 1
    then ok zstd
    else if n == 2
    then ok lz4
    else err (unknown_compression n)

pub from_id-id : (t : Compression) → from_id (id t) ≡ ok t
unfolding from_id id
from_id-id none = refl
from_id-id _ = refl
