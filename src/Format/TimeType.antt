-- ===== src/Format/TimeType.antt =====
-- `TimeType` of crates/splayed-format/src/types.rs.
use stkoe_data.Base.{ℕ, Result, ok, err, ◌==◌, if◌then◌else◌, ◌≡◌, refl}
use stkoe_data.Format.Errors.{FormatError, unknown_time_type}
use stkoe_data.Format.DataType.{DataType}

pub data TimeType : Type 0 where
  date32 timestamp_us : TimeType

unfoldable pub id : TimeType → ℕ
id date32 = 0
id timestamp_us = 1

unfoldable pub size_of : TimeType → ℕ
size_of date32 = 4
size_of timestamp_us = 8

unfoldable pub data_type : TimeType → DataType
data_type date32 = DataType.date32
data_type timestamp_us = DataType.timestamp_us

unfoldable pub from_id : ℕ → Result FormatError TimeType
from_id n =
    if n == 0 then ok date32 else if n == 1 then ok timestamp_us else err (unknown_time_type n)

pub from_id-id : (t : TimeType) → from_id (id t) ≡ ok t
unfolding from_id id
from_id-id date32 = refl
from_id-id timestamp_us = refl
