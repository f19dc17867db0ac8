-- ===== src/Format/Layout.antt =====
-- The constants of crates/splayed-format/src/lib.rs and the size of the validity region.
use stkoe_data.Base.{ℕ, ◌+◌, ◌/◌, ◌≡◌, refl, from_le, [], ◌∷◌}

-- `u64::from_le_bytes(*b"SPLAYMTA")` and `u64::from_le_bytes(*b"SPLAYFLD")`
abbrev pub meta_magic : ℕ
meta_magic = 0x41544D59414C5053

abbrev pub field_magic : ℕ
field_magic = 0x444C4659414C5053

meta_magic_bytes : meta_magic ≡ from_le (b'S' ∷ b'P' ∷ b'L' ∷ b'A' ∷ b'Y' ∷ b'M' ∷ b'T' ∷ b'A' ∷ [])
unfolding from_le
meta_magic_bytes = refl

field_magic_bytes :
    field_magic ≡ from_le (b'S' ∷ b'P' ∷ b'L' ∷ b'A' ∷ b'Y' ∷ b'F' ∷ b'L' ∷ b'D' ∷ [])
unfolding from_le
field_magic_bytes = refl

abbrev pub header_size : ℕ
header_size = 64

abbrev pub data_offset : ℕ
data_offset = header_size

abbrev pub format_version : ℕ
format_version = 2

abbrev pub validity_size : ℕ → ℕ
validity_size row_count = (row_count + 7) / 8
