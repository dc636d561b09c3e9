-- ===== src/Bits/Step.antt =====
-- One equation for the lowest digit of `bit_xor` and of `bit_and`: the operations of the language
-- stand for a recursion on binary digits with fuel, and here the fuel is dropped.
use Prim.Native.Nat.{digits, bitwise, differ, bit_and-bitwise, bit_xor-bitwise}
use libmodem.Prelude.{
  ℕ, zero, suc, ◌+◌, ◌*◌, ◌/◌, ◌%◌, ◌≤◌, ◌<◌, min, bit_and, bit_xor, ◌≡◌, refl, arith,
}

module _ (rest : ℕ → ℕ) (join : ℕ → ℕ → ℕ) where
  -- Fuel beyond the first number changes nothing.
  spare_fuel :
      (fuel more x y : ℕ)
      → x ≤ fuel
      → fuel ≤ more
      → digits rest join more x y ≡ digits rest join fuel x y
  spare_fuel (suc fuel) (suc more) (suc x) y within spare =
      rw (spare_fuel fuel more (suc x / 2) (y / 2) (omega arith) (omega arith))
  spare_fuel (suc fuel) zero x y within spare = absurd (omega arith)
  spare_fuel zero more (suc x) y within spare = absurd (omega arith)
  spare_fuel (suc fuel) (suc more) zero y within spare = refl
  spare_fuel zero (suc more) zero y within spare = refl
  spare_fuel zero zero zero y within spare = refl

  bitwise-suc :
      (x y : ℕ)
      → bitwise rest join (suc x) y
        ≡ bitwise rest join (suc x / 2) (y / 2) * 2 + join (suc x % 2) (y % 2)
  bitwise-suc x y =
      let half = suc x / 2 in rw (spare_fuel half x half (y / 2) (omega arith) (omega arith))

pub zero-bit_xor : (b : ℕ) → bit_xor 0 b ≡ b
zero-bit_xor b = bit_xor-bitwise 0 b

differ-bits : (a b : ℕ) → a < 2 → b < 2 → differ a b ≡ (a + b) % 2
differ-bits zero zero p q = refl
differ-bits zero (suc zero) p q = refl
differ-bits (suc zero) zero p q = refl
differ-bits (suc zero) (suc zero) p q = refl
differ-bits zero (suc (suc b)) p q = absurd (omega arith)
differ-bits (suc zero) (suc (suc b)) p q = absurd (omega arith)
differ-bits (suc (suc a)) b p q = absurd (omega arith)

pub bit_xor_step : (a b : ℕ) → bit_xor a b ≡ bit_xor (a / 2) (b / 2) * 2 + (a % 2 + b % 2) % 2
bit_xor_step zero b = simp zero-bit_xor (omega arith)
bit_xor_step (suc a) b = omega (
  arith,
  bit_xor-bitwise (suc a) b,
  bit_xor-bitwise (suc a / 2) (b / 2),
  bitwise-suc (λ y. y) differ a b,
  differ-bits (suc a % 2) (b % 2) (omega arith) (omega arith),
)

pub bit_and_step : (x y : ℕ) → min (x % 2) (y % 2) + 2 * bit_and (x / 2) (y / 2) ≡ bit_and x y
bit_and_step zero y = omega (arith, bit_and-bitwise 0 y, bit_and-bitwise 0 (y / 2))
bit_and_step (suc x) y = omega (
  arith,
  bit_and-bitwise (suc x) y,
  bit_and-bitwise (suc x / 2) (y / 2),
  bitwise-suc (λ t. 0) min x y,
)
