-- ===== src/Crc/Polynomial.antt =====
-- The reference: polynomials over GF(2), a number's binary digits being the coefficients.
use native.Mathlib.Nat.{pow-suc}
use libmodem.Bits.{
  bit_xor-shift, bit_xor_self, bit_xor_fields, bit_xor_assoc, zero-bit_xor, bit_xor-lt,
}
use libmodem.Crc.{crc_poly, generate_crc}
use libmodem.Crc.Register.{shift, shifts, feed, feed_all, generate_crc-feed_all}
use libmodem.Crc.Residue.{feed-lt, feed_all-lt, shift-lt}
use libmodem.Prelude.{
  ℕ, zero, suc, ◌+◌, ◌*◌, ◌/◌, ◌%◌, ◌^◌, ◌≤◌, ◌<◌, bit_xor, ◌≡◌, refl, sym, ap, ap₂, ◌∙◌, List, [],
  ◌∷◌, All, arith, subst,
}

-- x^16 + x^12 + x^5 + 1
abbrev pub generator : ℕ
generator = 0x11021

-- The multiples of the generator: the ideal that it spans.
pub data IsMultiple : ℕ → Type 0 where
  none_of : {n : ℕ} → n ≡ 0 → IsMultiple n
  once : {n : ℕ} → n ≡ generator → IsMultiple n
  times_x : {m n : ℕ} → IsMultiple m → n ≡ m * 2 → IsMultiple n
  plus : {a b n : ℕ} → IsMultiple a → IsMultiple b → n ≡ bit_xor a b → IsMultiple n

-- The message as a number, the first byte on top.
unfoldable pub value : ℕ → List ℕ → ℕ
value front [] = front
value front (octet ∷ octets) = value (front * 256 + octet) octets

of_eq : {m n : ℕ} → IsMultiple m → m ≡ n → IsMultiple n
of_eq h e = subst IsMultiple e h

times_pow : (k : ℕ) {m : ℕ} → IsMultiple m → IsMultiple (m * 2 ^ k)
times_pow zero h = of_eq h (omega arith)
times_pow (suc k) {m} h =
    times_x (times_pow k h) (omega (arith, ap (λ (t : ℕ). m * t) (pow-suc 2 k)))

-- A common summand drops out.
bit_xor_middle : (a r b : ℕ) → bit_xor (bit_xor a r) (bit_xor r b) ≡ bit_xor a b
bit_xor_middle a r b =
    bit_xor_assoc a r (bit_xor r b)
    ∙ ap (bit_xor a)
        (sym (bit_xor_assoc r r b) ∙ ap (λ t. bit_xor t b) (bit_xor_self r) ∙ zero-bit_xor b)

selected-IsMultiple : (t : ℕ) → t < 2 → IsMultiple (bit_xor (t * 2 ^ 16) (t * crc_poly))
selected-IsMultiple zero h = none_of refl
selected-IsMultiple (suc zero) h = once refl
selected-IsMultiple (suc (suc t)) h = absurd (omega arith)

shift-IsMultiple : (c : ℕ) → c < 2 ^ 16 → IsMultiple (bit_xor (c * 2) (shift c))
unfolding shift
shift-IsMultiple c h =
    let top : ℕ = c / 2 ^ 15 % 2 in
    let rest : ℕ = c * 2 % 2 ^ 16 in
    let split : bit_xor (top * 2 ^ 16) rest ≡ c * 2 =
      bit_xor_fields 16 top rest (omega arith) ∙ omega arith in
    of_eq (selected-IsMultiple top (omega arith)) (
      sym (bit_xor_middle (top * 2 ^ 16) rest (top * crc_poly))
      ∙ ap (λ t. bit_xor t (bit_xor rest (top * crc_poly))) split)

shifts-IsMultiple : (n c : ℕ) → c < 2 ^ 16 → IsMultiple (bit_xor (c * 2 ^ n) (shifts n c))
unfolding shifts
shifts-IsMultiple zero c h =
    none_of (ap (λ t. bit_xor t c) {x = c * 1} (omega arith) ∙ bit_xor_self c)
shifts-IsMultiple (suc n) c h =
    let step : bit_xor (c * 2 * 2 ^ n) (shift c * 2 ^ n) ≡ bit_xor (c * 2) (shift c) * 2 ^ n =
      bit_xor-shift n (c * 2) (shift c) in
    let front : c * 2 ^ suc n ≡ c * 2 * 2 ^ n =
      omega (arith, ap (λ (t : ℕ). c * t) (pow-suc 2 n)) in
    plus (times_pow n (shift-IsMultiple c h)) (shifts-IsMultiple n (shift c) (shift-lt c)) (
      ap (λ t. bit_xor t (shifts n (shift c))) front
      ∙ sym (bit_xor_middle (c * 2 * 2 ^ n) (shift c * 2 ^ n) (shifts n (shift c)))
      ∙ ap (λ t. bit_xor t (bit_xor (shift c * 2 ^ n) (shifts n (shift c)))) step)

feed-IsMultiple :
    (m c octet : ℕ)
    → c < 2 ^ 16
    → octet < 256
    → IsMultiple (bit_xor (m * 2 ^ 16) c)
    → IsMultiple (bit_xor ((m * 256 + octet) * 2 ^ 16) (feed c octet))
unfolding feed
feed-IsMultiple m c octet h p mult =
    let u : ℕ = bit_xor c (octet % 256 * 256) in
    let out : ℕ = shifts 8 u in
    let u_word : u < 2 ^ 16 = bit_xor-lt 16 c _ h (omega arith) in
    let top : ℕ = m * 2 ^ 16 * 2 ^ 8 in
    let entered : bit_xor (c * 2 ^ 8) (octet * 2 ^ 16) ≡ u * 2 ^ 8 =
      ap (bit_xor (c * 2 ^ 8)) {x = octet * 2 ^ 16} {y = octet % 256 * 256 * 2 ^ 8} (omega arith)
      ∙ bit_xor-shift 8 c (octet % 256 * 256) in
    let message : bit_xor top (octet * 2 ^ 16) ≡ (m * 256 + octet) * 2 ^ 16 =
      ap (λ t. bit_xor t (octet * 2 ^ 16)) {x = top} {y = m * 2 ^ 24} (omega arith)
      ∙ bit_xor_fields 24 m (octet * 2 ^ 16) (omega arith)
      ∙ omega arith in
    plus (times_pow 8 mult) (shifts-IsMultiple 8 u u_word) (
      ap (λ t. bit_xor t out) (sym message)
      ∙ bit_xor_assoc top (octet * 2 ^ 16) out
      ∙ sym (bit_xor_middle top (c * 2 ^ 8) (bit_xor (octet * 2 ^ 16) out))
      ∙ ap₂ bit_xor (bit_xor-shift 8 (m * 2 ^ 16) c)
          (sym (bit_xor_assoc (c * 2 ^ 8) (octet * 2 ^ 16) out) ∙ ap (λ t. bit_xor t out) entered))

feed_all-IsMultiple :
    (m c : ℕ) (octets : List ℕ)
    → c < 2 ^ 16
    → All (λ x. x < 256) octets
    → IsMultiple (bit_xor (m * 2 ^ 16) c)
    → IsMultiple (bit_xor (value m octets * 2 ^ 16) (feed_all c octets))
unfolding value feed_all
feed_all-IsMultiple m c [] h bytes mult = mult
feed_all-IsMultiple m c (octet ∷ octets) h bytes mult =
    feed_all-IsMultiple (m * 256 + octet) (feed c octet) octets (feed-lt c octet h) bytes.1
      (feed-IsMultiple m c octet h bytes.0 mult)

-- With an `unsigned int` of 16 bits or more, the result for a message of bytes is a remainder of
-- the message times x^16 by the generator: a polynomial of degree below 16 that differs from it by
-- a multiple.
pub generate_crc-remainder :
    (w : ℕ) (octets : List ℕ)
    → 16 ≤ w
    → All (λ x. x < 256) octets
    → (generate_crc w octets < 2 ^ 16)
      × IsMultiple (bit_xor (value 0 octets * 2 ^ 16) (generate_crc w octets))
generate_crc-remainder w octets wide bytes = rw (generate_crc-feed_all w wide octets) (
  feed_all-lt 0 octets (omega arith),
  feed_all-IsMultiple 0 0 octets (omega arith) bytes (none_of refl),
)
