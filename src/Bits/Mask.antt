-- ===== src/Bits/Mask.antt =====
-- `&` with a single bit, and with the mask of a byte.
use native.Mathlib.Nat.{pow-suc, div-div-eq-div-mul}
use libmodem.Bits.Step.{bit_and_step}
use libmodem.Prelude.{
  ℕ, zero, suc, ◌*◌, ◌/◌, ◌%◌, ◌^◌, ◌≤◌, bit_and, ◌≡◌, refl, arith, ap, ap₂, sym, ◌∙◌,
}

and-zero_below : (n a : ℕ) → a ≤ n → bit_and a 0 ≡ 0
and-zero_below n zero h = refl
and-zero_below zero (suc a) h = absurd (omega arith)
and-zero_below (suc n) (suc a) h =
    omega (arith, bit_and_step (suc a) 0, and-zero_below n (suc a / 2) (omega arith))

pub bit_and-zero : (a : ℕ) → bit_and a 0 ≡ 0
bit_and-zero a = and-zero_below a a (omega arith)

-- `x & (1 << k)` is the digit of weight `2 ^ k`, in its place.
pub bit_and_bit : (k a : ℕ) → bit_and a (2 ^ k) ≡ a / 2 ^ k % 2 * 2 ^ k
bit_and_bit zero a = omega (arith, bit_and_step a 1, bit_and-zero (a / 2))
bit_and_bit (suc k) a =
    let two : 2 ^ suc k ≡ 2 * 2 ^ k = pow-suc 2 k ∙ omega arith in
    let half : 2 ^ suc k / 2 ≡ 2 ^ k = omega arith in
    let digit : a / 2 ^ suc k ≡ a / 2 / 2 ^ k =
      ap (λ (t : ℕ). a / t) two ∙ sym (div-div-eq-div-mul a 2 (2 ^ k)) in
    let high : a / 2 ^ suc k % 2 * 2 ^ suc k ≡ a / 2 / 2 ^ k % 2 * 2 ^ k * 2 =
      ap₂ ◌*◌ (ap (λ (t : ℕ). t % 2) digit) (pow-suc 2 k) ∙ omega arith in
    omega
      (arith, bit_and_step a (2 ^ suc k), ap (bit_and (a / 2)) half, bit_and_bit k (a / 2), high)

bit_and_nibble : (a : ℕ) → bit_and a 15 ≡ a % 16
bit_and_nibble a = omega (
  arith,
  bit_and_step a 15,
  bit_and_step (a / 2) 7,
  bit_and_step (a / 2 / 2) 3,
  bit_and_bit 0 (a / 2 / 2 / 2),
)

-- `x & 0xFF` is the low byte.
pub bit_and_byte : (a : ℕ) → bit_and a 0xFF ≡ a % 256
bit_and_byte a = omega (
  arith,
  bit_and_step a 255,
  bit_and_step (a / 2) 127,
  bit_and_step (a / 2 / 2) 63,
  bit_and_step (a / 2 / 2 / 2) 31,
  bit_and_nibble (a / 2 / 2 / 2 / 2),
)

bit_and-double : (a b : ℕ) → bit_and a (b * 2) ≡ bit_and (a / 2) b * 2
bit_and-double a b =
    let half : b * 2 / 2 ≡ b = omega arith in
    omega (arith, bit_and_step a (b * 2), ap (bit_and (a / 2)) half)

pub bit_and-shift : (k a b : ℕ) → bit_and a (b * 2 ^ k) ≡ bit_and (a / 2 ^ k) b * 2 ^ k
bit_and-shift zero a b =
    let left : a / 1 ≡ a = omega arith in
    let right : b * 1 ≡ b = omega arith in
    ap (bit_and a) right ∙ ap (λ t. bit_and t b) (sym left) ∙ omega arith
bit_and-shift (suc k) a b =
    let two : b * 2 ^ suc k ≡ b * 2 ^ k * 2 = omega (arith, ap (λ (t : ℕ). b * t) (pow-suc 2 k)) in
    let digits : a / 2 / 2 ^ k ≡ a / 2 ^ suc k =
      div-div-eq-div-mul a 2 (2 ^ k) ∙ ap (λ (t : ℕ). a / t) (omega (arith, pow-suc 2 k)) in
    let out : ℕ = bit_and (a / 2 ^ suc k) b in
    ap (bit_and a) two
    ∙ bit_and-double a (b * 2 ^ k)
    ∙ ap (λ t. t * 2) (bit_and-shift k (a / 2) b ∙ ap (λ t. bit_and t b * 2 ^ k) digits)
    ∙ omega (arith, ap (λ (t : ℕ). out * t) (pow-suc 2 k))
