-- ===== src/Codec/Errors.antt =====
-- crates/splayed-codec/src/error.rs.
use Prim.Native.String.{String}
use stkoe_data.Base.{ℕ, Result}
use stkoe_data.Format.Errors.{FormatError}

pub data CodecError : Type 0 where
  format : FormatError → CodecError
  row_count_mismatch : ℕ → ℕ → CodecError
  truncated : ℕ → ℕ → CodecError
  corrupt : String → CodecError
  io : String → CodecError

-- A byte buffer, or a codec error.
abbrev pub Codec : Type 0 → Type 0
Codec A = Result CodecError A
