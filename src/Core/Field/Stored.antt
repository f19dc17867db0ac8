-- ===== src/Core/Field/Stored.antt =====
-- Opening a chunked FIELD file that was created.
pub mod Bits
pub mod Sizes
pub mod Step
pub mod Loop
pub mod Headers
pub mod Whole
pub mod Reopen
