-- ===== src/Format/Encoding.antt =====
-- `Encoding` of crates/splayed-format/src/types.rs.
use stkoe_data.Base.{ℕ, Result, ok, err, ◌==◌, if◌then◌else◌, ◌≡◌, refl}
use stkoe_data.Format.Errors.{FormatError, unknown_encoding}

pub data Encoding : Type 0 where
  plain delta rle bitpack : Encoding

unfoldable pub id : Encoding → ℕ
id plain = 0
id delta = 1
id rle = 2
id bitpack = 3

unfoldable pub from_id : ℕ → Result FormatError Encoding
from_id n =
    if n == 0
    then ok plain
    else if n == 1
    then ok delta
    else if n == 2
    then ok rle
    else if n == 3
    then ok bitpack
    else err (unknown_encoding n)

pub from_id-id : (t : Encoding) → from_id (id t) ≡ ok t
unfolding from_id id
from_id-id plain = refl
from_id-id _ = refl
