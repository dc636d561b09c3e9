-- ===== src/Crc/Register.antt =====
-- The 16-bit shift register that `generate_crc` runs, whatever the width of `unsigned int`.
use native.Mathlib.Nat.{mod-mod_of_dvd, pow-suc, dvd_refl, dvd-mul_right_of_dvd}
use native.Mathlib.Decide.{dec_le}
use Prim.Native.Nat.{◌∣◌}
use libmodem.Bits.{bit_xor-mod, bit_xor-div, bit_xor-double, bit_xor-zero}
use libmodem.Bits.{bit_xor_interchange, bit_and_bit, bit_and_byte}
use libmodem.Crc.{crc_poly, crc_bit, bit_loop, crc_octet, octet_loop, generate_crc}
use libmodem.Prelude.{
  ℕ, zero, suc, ◌*◌, ◌/◌, ◌%◌, ◌^◌, ◌≤◌, ◌<◌, bit_xor, ◌≡◌, refl, sym, ap, ap₂, ◌∙◌, List, [], ◌∷◌,
  arith, subst,
}

-- One shift: the top bit leaves, and selects the polynomial.
unfoldable pub shift : ℕ → ℕ
shift c = bit_xor (c * 2 % 2 ^ 16) (c / 2 ^ 15 % 2 * crc_poly)

unfoldable pub shifts : ℕ → ℕ → ℕ
unfolding shift
shifts zero c = c
shifts (suc n) c = shifts n (shift c)

unfoldable pub feed : ℕ → ℕ → ℕ
unfolding shifts
feed c octet = shifts 8 (bit_xor c (octet % 256 * 256))

unfoldable pub feed_all : ℕ → List ℕ → ℕ
unfolding feed
feed_all c [] = c
feed_all c (octet ∷ octets) = feed_all (feed c octet) octets

word-dvd : (w : ℕ) → 16 ≤ w → 2 ^ 16 ∣ 2 ^ w
word-dvd zero h = absurd (omega arith)
word-dvd (suc w) h = elim (dec_le 16 w) [
  | yes more ↦ rw (pow-suc 2 w) (dvd-mul_right_of_dvd (2 ^ 16) (word-dvd w more) 2)
  | no last ↦ let e : 15 ≡ w = omega arith in subst (λ (t : ℕ). 2 ^ 16 ∣ 2 ^ suc t) e (dvd_refl _)
]

module _ (w : ℕ) (wide : 16 ≤ w) where
  word_of_wide : (x : ℕ) → x % 2 ^ w % 2 ^ 16 ≡ x % 2 ^ 16
  word_of_wide x = mod-mod_of_dvd (2 ^ 16) x (word-dvd w wide)

  crc_bit-shift : (c : ℕ) → crc_bit w c % 2 ^ 16 ≡ shift (c % 2 ^ 16)
  unfolding crc_bit shift
  crc_bit-shift c = ground (
    arith,
    bit_and_bit 15 c,
    word_of_wide (c * 2),
    bit_xor-mod 16 (c * 2 % 2 ^ w) crc_poly,
    bit_xor-zero (c % 2 ^ 16 * 2 % 2 ^ 16),
  )

  bit_loop-shifts : (n c : ℕ) → bit_loop w n c % 2 ^ 16 ≡ shifts n (c % 2 ^ 16)
  unfolding bit_loop shifts
  bit_loop-shifts zero c = refl
  bit_loop-shifts (suc n) c = bit_loop-shifts n (crc_bit w c) ∙ ap (shifts n) (crc_bit-shift c)

  crc_octet-feed : (c octet : ℕ) → crc_octet w c octet % 2 ^ 16 ≡ feed (c % 2 ^ 16) octet
  unfolding crc_octet feed
  crc_octet-feed c octet =
      bit_loop-shifts 8 _
      ∙ ap (shifts 8) (
          bit_xor-mod 16 c _
          ∙ ap (bit_xor (c % 2 ^ 16)) (word_of_wide _ ∙ omega (arith, bit_and_byte octet)))

  octet_loop-feed_all :
      (c : ℕ) (octets : List ℕ) → octet_loop w c octets % 2 ^ 16 ≡ feed_all (c % 2 ^ 16) octets
  unfolding octet_loop feed_all
  octet_loop-feed_all c [] = refl
  octet_loop-feed_all c (octet ∷ octets) =
      octet_loop-feed_all (crc_octet w c octet) octets
      ∙ ap (λ r. feed_all r octets) (crc_octet-feed c octet)

  pub generate_crc-feed_all : (octets : List ℕ) → generate_crc w octets ≡ feed_all 0 octets
  unfolding generate_crc
  generate_crc-feed_all octets = octet_loop-feed_all 0 octets

-- The register is linear over GF(2).
digit-linear :
    (a b : ℕ) → a < 2 → b < 2 → bit_xor a b * crc_poly ≡ bit_xor (a * crc_poly) (b * crc_poly)
digit-linear zero zero p q = refl
digit-linear zero (suc zero) p q = refl
digit-linear (suc zero) zero p q = refl
digit-linear (suc zero) (suc zero) p q = refl
digit-linear zero (suc (suc b)) p q = absurd (omega arith)
digit-linear (suc zero) (suc (suc b)) p q = absurd (omega arith)
digit-linear (suc (suc a)) b p q = absurd (omega arith)

doubled : (a b : ℕ) → bit_xor a b * 2 % 2 ^ 16 ≡ bit_xor (a * 2 % 2 ^ 16) (b * 2 % 2 ^ 16)
doubled a b = ap (λ (t : ℕ). t % 2 ^ 16) (sym (bit_xor-double a b)) ∙ bit_xor-mod 16 (a * 2) (b * 2)

selected :
    (a b : ℕ)
    → bit_xor a b / 2 ^ 15 % 2 * crc_poly
      ≡ bit_xor (a / 2 ^ 15 % 2 * crc_poly) (b / 2 ^ 15 % 2 * crc_poly)
selected a b =
    ap (λ (t : ℕ). t * crc_poly)
      (ap (λ (t : ℕ). t % 2) (bit_xor-div 15 a b) ∙ bit_xor-mod 1 (a / 2 ^ 15) (b / 2 ^ 15))
    ∙ digit-linear (a / 2 ^ 15 % 2) (b / 2 ^ 15 % 2) (omega arith) (omega arith)

pub shift-linear : (a b : ℕ) → shift (bit_xor a b) ≡ bit_xor (shift a) (shift b)
unfolding shift
shift-linear a b =
    ap₂ bit_xor (doubled a b) (selected a b)
    ∙ bit_xor_interchange (a * 2 % 2 ^ 16) (b * 2 % 2 ^ 16) _ _

pub shifts-linear : (n a b : ℕ) → shifts n (bit_xor a b) ≡ bit_xor (shifts n a) (shifts n b)
unfolding shifts
shifts-linear zero a b = refl
shifts-linear (suc n) a b = ap (shifts n) (shift-linear a b) ∙ shifts-linear n (shift a) (shift b)
