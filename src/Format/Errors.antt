-- ===== src/Format/Errors.antt =====
-- crates/splayed-format/src/error.rs. The text of an `InvalidLayout` is left out.
use stkoe_data.Base.{ℕ}

pub data FormatError : Type 0 where
  bad_magic : ℕ → ℕ → FormatError
  bad_version : ℕ → ℕ → FormatError
  unknown_data_type : ℕ → FormatError
  unknown_time_type : ℕ → FormatError
  unknown_encoding : ℕ → FormatError
  unknown_compression : ℕ → FormatError
  size_mismatch : ℕ → ℕ → FormatError
  alignment : ℕ → ℕ → FormatError
  invalid_layout : FormatError
