-- ===== src/Tests/Crc.antt =====
-- The theorems on the CRC and the checksum at short messages.
use libmodem.Prelude.{ℕ, ◌≡◌, refl, ◌↔◌, List, [], ◌∷◌, ◌++◌, arith, ◌<◌, ◌^◌, ◌*◌, ◌+◌, bit_xor}
use libmodem.Crc.{generate_crc}
use libmodem.Crc.Errors.{generate_crc-residue, generate_crc-burst}
use libmodem.Crc.Polynomial.{generate_crc-remainder, IsMultiple, value}

abbrev digits : List ℕ
digits = 0x31 ∷ 0x32 ∷ 0x33 ∷ []

generate_crc-residue_example :
    (generate_crc 32 (digits ++ 0x97 ∷ 0x52 ∷ []) ≡ 0)
    ↔ (generate_crc 32 digits ≡ 0x97 * 256 + 0x52)
generate_crc-residue_example =
    generate_crc-residue 32 digits 0x97 0x52 (omega arith) (omega arith) (omega arith)

generate_crc-burst_example : (◌≡◌ {A = ℕ} 1 1) × (◌≡◌ {A = ℕ} 2 2)
generate_crc-burst_example =
    generate_crc-burst 32 digits digits 1 2 1 2 (omega arith) (omega arith) (omega arith)
      (omega arith) (omega arith) refl

generate_crc-remainder_example :
    (generate_crc 32 digits < 2 ^ 16)
    × IsMultiple (bit_xor (value 0 digits * 2 ^ 16) (generate_crc 32 digits))
generate_crc-remainder_example = generate_crc-remainder 32 digits (omega arith) (omega arith)
