-- ===== src/Prelude/Bits.antt =====
-- Facts about `bit_and` and `bit_or` at variables.
mod Digits
mod Masks
pub use Masks.*
unfoldable pub use Digits.*
