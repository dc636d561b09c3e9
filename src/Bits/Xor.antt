-- ===== src/Bits/Xor.antt =====
-- Exclusive or is an abelian group of exponent 2, and commutes with shifts and truncation.
use native.Mathlib.Nat.{
  pow-suc, one-le-pow, mul-add-mod_self_right, mod-eq_of_lt, mul-add-div_right,
}
use libmodem.Bits.Step.{bit_xor_step, zero-bit_xor}
use libmodem.Prelude.{
  ℕ, zero, suc, ◌+◌, ◌*◌, ◌/◌, ◌%◌, ◌^◌, ◌≤◌, ◌<◌, bit_xor, ◌≡◌, refl, arith, ap, ap₂, sym, ◌∙◌,
}

-- Each law goes from the halves to the numbers; `n` bounds the numbers.
comm_below : (n a b : ℕ) → a ≤ n → b ≤ n → bit_xor a b ≡ bit_xor b a
comm_below zero zero zero p q = refl
comm_below zero zero (suc b) p q = absurd (omega arith)
comm_below zero (suc a) b p q = absurd (omega arith)
comm_below (suc n) a b p q = omega (
  arith,
  bit_xor_step a b,
  bit_xor_step b a,
  comm_below n (a / 2) (b / 2) (omega arith) (omega arith),
)

pub bit_xor_comm : (a b : ℕ) → bit_xor a b ≡ bit_xor b a
bit_xor_comm a b = comm_below (a + b) a b (omega arith) (omega arith)

pub bit_xor-zero : (a : ℕ) → bit_xor a 0 ≡ a
bit_xor-zero a = bit_xor_comm a 0 ∙ zero-bit_xor a

half-bit_xor : (a b : ℕ) → bit_xor a b / 2 ≡ bit_xor (a / 2) (b / 2)
half-bit_xor a b = omega (arith, bit_xor_step a b)

odd-bit_xor : (a b : ℕ) → bit_xor a b % 2 ≡ (a + b) % 2
odd-bit_xor a b = omega (arith, bit_xor_step a b)

assoc_below :
    (n a b c : ℕ) → a ≤ n → b ≤ n → c ≤ n → bit_xor (bit_xor a b) c ≡ bit_xor a (bit_xor b c)
assoc_below zero zero b c p q r = rw (zero-bit_xor b, zero-bit_xor (bit_xor b c))
assoc_below zero (suc a) b c p q r = absurd (omega arith)
assoc_below (suc n) a b c p q r = omega (
  arith,
  bit_xor_step (bit_xor a b) c,
  bit_xor_step a (bit_xor b c),
  ap (λ t. bit_xor t (c / 2)) (half-bit_xor a b),
  ap (bit_xor (a / 2)) (half-bit_xor b c),
  odd-bit_xor a b,
  odd-bit_xor b c,
  assoc_below n (a / 2) (b / 2) (c / 2) (omega arith) (omega arith) (omega arith),
)

pub bit_xor_assoc : (a b c : ℕ) → bit_xor (bit_xor a b) c ≡ bit_xor a (bit_xor b c)
bit_xor_assoc a b c = assoc_below (a + b + c) a b c (omega arith) (omega arith) (omega arith)

self_below : (n a : ℕ) → a ≤ n → bit_xor a a ≡ 0
self_below n zero p = refl
self_below zero (suc a) p = absurd (omega arith)
self_below (suc n) (suc a) p =
    omega (arith, bit_xor_step (suc a) (suc a), self_below n (suc a / 2) (omega arith))

pub bit_xor_self : (a : ℕ) → bit_xor a a ≡ 0
bit_xor_self a = self_below a a (omega arith)

pub bit_xor_cancel : (a b : ℕ) → bit_xor (bit_xor a b) b ≡ a
bit_xor_cancel a b = rw (bit_xor_assoc a b b, bit_xor_self b) (bit_xor-zero a)

pub eq_of_bit_xor : (a b : ℕ) → bit_xor a b ≡ 0 → a ≡ b
eq_of_bit_xor a b h = sym (bit_xor_cancel a b) ∙ ap (λ t. bit_xor t b) h ∙ zero-bit_xor b

-- Two sums regrouped, as for linearity.
pub bit_xor_interchange :
    (a b c d : ℕ) → bit_xor (bit_xor a b) (bit_xor c d) ≡ bit_xor (bit_xor a c) (bit_xor b d)
bit_xor_interchange a b c d =
    bit_xor_assoc a b (bit_xor c d)
    ∙ ap (bit_xor a) (sym (bit_xor_assoc b c d))
    ∙ ap (λ t. bit_xor a (bit_xor t d)) (bit_xor_comm b c)
    ∙ ap (bit_xor a) (bit_xor_assoc c b d)
    ∙ sym (bit_xor_assoc a c (bit_xor b d))

double_pow : (k a : ℕ) → a * 2 ^ suc k ≡ a * 2 ^ k * 2
double_pow k a = omega (arith, ap (λ (t : ℕ). a * t) (pow-suc 2 k))

pub bit_xor-double : (a b : ℕ) → bit_xor (a * 2) (b * 2) ≡ bit_xor a b * 2
bit_xor-double a b =
    let left : a * 2 / 2 ≡ a = omega arith in
    let right : b * 2 / 2 ≡ b = omega arith in
    omega (arith, bit_xor_step (a * 2) (b * 2), ap₂ bit_xor left right)

pub bit_xor-shift : (k a b : ℕ) → bit_xor (a * 2 ^ k) (b * 2 ^ k) ≡ bit_xor a b * 2 ^ k
bit_xor-shift zero a b =
    let left : a * 1 ≡ a = omega arith in
    let right : b * 1 ≡ b = omega arith in omega (arith, ap₂ bit_xor left right)
bit_xor-shift (suc k) a b =
    rw (double_pow k a, double_pow k b, double_pow k (bit_xor a b), bit_xor-double)
      (ap (λ t. t * 2) (bit_xor-shift k a b))

pub bit_xor-lt : (k a b : ℕ) → a < 2 ^ k → b < 2 ^ k → bit_xor a b < 2 ^ k
bit_xor-lt zero zero zero p q = omega arith
bit_xor-lt zero zero (suc b) p q = absurd (omega arith)
bit_xor-lt zero (suc a) b p q = absurd (omega arith)
bit_xor-lt (suc k) a b p q =
    let two : 2 ^ suc k ≡ 2 ^ k * 2 = pow-suc 2 k in
    omega (arith, bit_xor_step a b, bit_xor-lt k (a / 2) (b / 2) (omega arith) (omega arith))

-- Fields that do not overlap.
pub bit_xor_fields : (k h l : ℕ) → l < 2 ^ k → bit_xor (h * 2 ^ k) l ≡ h * 2 ^ k + l
bit_xor_fields zero h zero p = rw bit_xor-zero (omega arith)
bit_xor_fields zero h (suc l) p = absurd (omega arith)
bit_xor_fields (suc k) h l p =
    let two : 2 ^ suc k ≡ 2 ^ k * 2 = pow-suc 2 k in
    let half : h * 2 ^ suc k / 2 ≡ h * 2 ^ k = omega (arith, double_pow k h) in
    omega (
      arith,
      double_pow k h,
      bit_xor_step (h * 2 ^ suc k) l,
      ap (λ t. bit_xor t (l / 2)) half,
      bit_xor_fields k h (l / 2) (omega arith),
    )

-- The sum of two numbers, field by field.
pub bit_xor-fields :
    (k h l h' l' : ℕ)
    → l < 2 ^ k
    → l' < 2 ^ k
    → bit_xor (h * 2 ^ k + l) (h' * 2 ^ k + l') ≡ bit_xor h h' * 2 ^ k + bit_xor l l'
bit_xor-fields k h l h' l' p q =
    ap₂ bit_xor (sym (bit_xor_fields k h l p)) (sym (bit_xor_fields k h' l' q))
    ∙ bit_xor_interchange (h * 2 ^ k) l (h' * 2 ^ k) l'
    ∙ ap (λ t. bit_xor t (bit_xor l l')) (bit_xor-shift k h h')
    ∙ bit_xor_fields k (bit_xor h h') (bit_xor l l') (bit_xor-lt k l l' p q)

-- Quotient and remainder by a power of two.
module _ (k a b : ℕ) where
  positive : 0 < 2 ^ k
  positive = one-le-pow k 2 (omega arith)

  bit_xor-parts :
      bit_xor a b ≡ bit_xor (a / 2 ^ k) (b / 2 ^ k) * 2 ^ k + bit_xor (a % 2 ^ k) (b % 2 ^ k)
  bit_xor-parts =
      let pos = positive in
      ap₂ bit_xor (split a pos) (split b pos)
      ∙ bit_xor-fields k (a / 2 ^ k) (a % 2 ^ k) (b / 2 ^ k) (b % 2 ^ k) (omega arith) (omega arith)
    where
      split : (x : ℕ) → 0 < 2 ^ k → x ≡ x / 2 ^ k * 2 ^ k + x % 2 ^ k
      split x pos = grind arith

  pub bit_xor-mod : bit_xor a b % 2 ^ k ≡ bit_xor (a % 2 ^ k) (b % 2 ^ k)
  bit_xor-mod =
      let pos = positive in
      let small = bit_xor-lt k (a % 2 ^ k) (b % 2 ^ k) (omega arith) (omega arith) in
      rw bit_xor-parts (mul-add-mod_self_right _ _ _ ∙ mod-eq_of_lt small)

  pub bit_xor-div : bit_xor a b / 2 ^ k ≡ bit_xor (a / 2 ^ k) (b / 2 ^ k)
  bit_xor-div =
      let pos = positive in
      let small = bit_xor-lt k (a % 2 ^ k) (b % 2 ^ k) (omega arith) (omega arith) in
      rw bit_xor-parts (mul-add-div_right pos _ _ ∙ grind arith)
