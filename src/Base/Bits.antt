-- ===== src/Base/Bits.antt =====
-- Binary digits of words: the native `bit_or`, `bit_and` and `bit_xor` read digit by digit, and as
-- arithmetic where a mask or a shift makes them so.
mod Digits
mod Masks
mod Shifts
mod Xor
pub use Digits.*
pub use Masks.*
pub use Shifts.*
pub use Xor.*
