-- ===== src/Base/Bits.antt =====
-- The binary digits of a number, and what `&`, `|`, `^`, shifts and masks do to them.
mod Digits
mod Shifts
mod Masks
mod Buffer
unfoldable pub use Digits.*
unfoldable pub use Shifts.*
unfoldable pub use Masks.*
unfoldable pub use Buffer.*
