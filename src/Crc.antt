-- ===== src/Crc.antt =====
-- `generate_chksum` and `generate_crc` of src/xmodem.c. A buffer with its size is the list of the
-- bytes that the size covers; `w` is the number of bits of C's `unsigned int`.
pub mod Register
pub mod Residue
pub mod Errors
pub mod Polynomial
use libmodem.Prelude.{
  ℕ, zero, suc, ◌*◌, ◌+◌, ◌%◌, ◌^◌, ◌<◌, arith, bit_and, bit_xor, ◌≡◌, refl, not, List, [], ◌∷◌,
  ◌==◌, if◌then◌else◌,
}

-- The loop of `generate_chksum`: `chksum` is an unsigned char and wraps at 256.
unfoldable pub chksum_loop : ℕ → List ℕ → ℕ
chksum_loop chksum [] = chksum
chksum_loop chksum (x ∷ octets) = chksum_loop ((chksum + x) % 2 ^ 8) octets

unfoldable pub generate_chksum : List ℕ → ℕ
unfolding chksum_loop
generate_chksum octets = chksum_loop 0 octets

abbrev pub crc_poly : ℕ
crc_poly = 0x1021

-- One round of the loop over the bits.
unfoldable pub crc_bit : ℕ → ℕ → ℕ
crc_bit w crc =
    if not (bit_and crc 0x8000 == 0) then bit_xor (crc * 2 % 2 ^ w) crc_poly else crc * 2 % 2 ^ w

unfoldable pub bit_loop : ℕ → ℕ → ℕ → ℕ
bit_loop w zero crc = crc
bit_loop w (suc rounds) crc = bit_loop w rounds (crc_bit w crc)

-- One round of the loop over the octets.
unfoldable pub crc_octet : ℕ → ℕ → ℕ → ℕ
unfolding bit_loop crc_bit
crc_octet w crc octet = bit_loop w 8 (bit_xor crc (bit_and octet 0xFF * 2 ^ 8 % 2 ^ w))

-- The code counts the octets by an `unsigned int`; there are fewer of them than that counts.
unfoldable pub octet_loop : ℕ → ℕ → List ℕ → ℕ
unfolding crc_octet
octet_loop w crc [] = crc
octet_loop w crc (octet ∷ octets) = octet_loop w (crc_octet w crc octet) octets

-- The result is cut to an unsigned short.
unfoldable pub generate_crc : ℕ → List ℕ → ℕ
unfolding octet_loop
generate_crc w octets = octet_loop w 0 octets % 2 ^ 16

pub generate_crc-lt : (w : ℕ) (octets : List ℕ) → generate_crc w octets < 2 ^ 16
unfolding generate_crc
generate_crc-lt w octets = omega arith

-- The check value of CRC-16/XMODEM: the digits "123456789".
check_value :
    generate_crc 32 (0x31 ∷ 0x32 ∷ 0x33 ∷ 0x34 ∷ 0x35 ∷ 0x36 ∷ 0x37 ∷ 0x38 ∷ 0x39 ∷ []) ≡ 0x31C3
unfolding generate_crc
check_value = refl
