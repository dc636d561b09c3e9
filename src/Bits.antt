-- ===== src/Bits.antt =====
-- Laws of `^` and of `&` with one bit on C's unsigned numbers, at every width.
mod Step
mod Xor
mod Mask
pub use Step.{bit_xor_step, bit_and_step, zero-bit_xor}
pub use Xor.*
pub use Mask.{bit_and-zero, bit_and_bit, bit_and_byte, bit_and-shift}
