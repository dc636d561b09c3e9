-- ===== src/Crc/Errors.antt =====
-- The errors that a receiver finds with the CRC and with the checksum of src/xmodem.c.
use libmodem.Bits.{
  bit_xor_assoc, bit_xor_self, bit_xor_interchange, zero-bit_xor, eq_of_bit_xor, bit_xor-lt,
  bit_xor-mod, bit_xor-shift,
}
use libmodem.Crc.{chksum_loop, generate_chksum, generate_crc}
use libmodem.Crc.Register.{shifts, feed, feed_all, shifts-linear, generate_crc-feed_all}
use libmodem.Crc.Residue.{
  feed-lt, feed_all-lt, feed_all-append, feed_all-injective, two_bytes_clear, two_bytes_only,
  shifts-injective, shifts-byte, high_byte,
}
use libmodem.Prelude.{
  ℕ, ◌+◌, ◌*◌, ◌/◌, ◌%◌, ◌^◌, ◌≤◌, ◌<◌, bit_xor, ◌≡◌, sym, ap, ap₂, ◌∙◌, List, [], ◌∷◌, ◌++◌, ◌↔◌,
  arith,
}

-- The value of `generate_crc` does not depend on the width of `unsigned int`, if it has 16 bits or
-- more.
pub generate_crc-width :
    (v w : ℕ) (octets : List ℕ) → 16 ≤ v → 16 ≤ w → generate_crc v octets ≡ generate_crc w octets
generate_crc-width v w octets p q =
    generate_crc-feed_all v p octets ∙ sym (generate_crc-feed_all w q octets)

-- With an `unsigned int` of 16 bits or more, the CRC of a message followed by two bytes is 0
-- exactly when the two bytes are the CRC of the message, high byte first.
pub generate_crc-residue :
    (w : ℕ) (octets : List ℕ) (hi lo : ℕ)
    → 16 ≤ w
    → hi < 256
    → lo < 256
    → (generate_crc w (octets ++ hi ∷ lo ∷ []) ≡ 0) ↔ (generate_crc w octets ≡ hi * 256 + lo)
unfolding feed_all
generate_crc-residue w octets hi lo wide p q =
    let c : ℕ = feed_all 0 octets in
    let word : c < 2 ^ 16 = feed_all-lt 0 octets (omega arith) in
    let whole : generate_crc w (octets ++ hi ∷ lo ∷ []) ≡ feed (feed c hi) lo =
      generate_crc-feed_all w wide _ ∙ feed_all-append 0 octets (hi ∷ lo ∷ []) in
    let part : generate_crc w octets ≡ c = generate_crc-feed_all w wide octets in
    (
      λ e. part ∙ two_bytes_only c hi lo word p q (sym whole ∙ e),
      λ e.
          let same : c ≡ hi * 256 + lo = sym part ∙ e in
          let high : c / 256 ≡ hi = omega arith in
          let low : c % 256 ≡ lo = omega arith in
          whole ∙ sym (ap₂ (λ h l. feed (feed c h) l) high low) ∙ two_bytes_clear c word,
    )

pub bit_xor_injective : (c a b : ℕ) → bit_xor c a ≡ bit_xor c b → a ≡ b
bit_xor_injective c a b e = sym (back a) ∙ ap (bit_xor c) e ∙ back b
  where
    back : (x : ℕ) → bit_xor c (bit_xor c x) ≡ x
    back x = sym (bit_xor_assoc c c x) ∙ ap (λ t. bit_xor t x) (bit_xor_self c) ∙ zero-bit_xor x

-- The difference of two registers after one byte is the shifted difference of the bytes.
feeds-difference :
    (c a b : ℕ) → a < 256 → b < 256 → bit_xor (feed c a) (feed c b) ≡ shifts 8 (bit_xor a b * 256)
unfolding feed
feeds-difference c a b p q =
    sym (shifts-linear 8 (bit_xor c (a % 256 * 256)) (bit_xor c (b % 256 * 256)))
    ∙ ap (shifts 8) (
        bit_xor_interchange c (a % 256 * 256) c (b % 256 * 256)
        ∙ ap (λ t. bit_xor t (bit_xor (a % 256 * 256) (b % 256 * 256))) (bit_xor_self c)
        ∙ zero-bit_xor _
        ∙ bit_xor-shift 8 (a % 256) (b % 256)
        ∙ ap₂ (λ x y. bit_xor x y * 256) (omega arith) (omega arith))

one_feed-injective :
    (c a b : ℕ) → c < 2 ^ 16 → a < 256 → b < 256 → feed c a % 256 ≡ feed c b % 256 → a ≡ b
one_feed-injective c a b h p q e =
    let d : ℕ = bit_xor (feed c a) (feed c b) in
    let d_word : d < 2 ^ 16 = bit_xor-lt 16 _ _ (feed-lt c a h) (feed-lt c b h) in
    let d_low : d % 256 ≡ 0 =
      bit_xor-mod 8 (feed c a) (feed c b)
      ∙ ap (λ t. bit_xor t (feed c b % 256)) e
      ∙ bit_xor_self (feed c b % 256) in
    let split : d ≡ d / 256 * 256 = omega arith in
    let x_byte : bit_xor a b < 2 ^ 8 = bit_xor-lt 8 a b p q in
    let same : bit_xor a b * 256 ≡ d / 256 =
      shifts-injective 8 _ _ (omega arith) (omega arith)
        (sym (feeds-difference c a b p q) ∙ split ∙ sym (shifts-byte (d / 256) (omega arith))) in
    eq_of_bit_xor a b (omega arith)

-- Two neighbouring bytes are recovered from the registers before and behind them.
pub two_feeds-injective :
    (c a b a' b' : ℕ)
    → c < 2 ^ 16
    → a < 256
    → b < 256
    → a' < 256
    → b' < 256
    → feed (feed c a) b ≡ feed (feed c a') b'
    → (a ≡ a') × (b ≡ b')
unfolding feed
two_feeds-injective c a b a' b' h p q p' q' e =
    let y : ℕ = feed c a in
    let y' : ℕ = feed c a' in
    let word : y < 2 ^ 16 = feed-lt c a h in
    let word' : y' < 2 ^ 16 = feed-lt c a' h in
    let inner : bit_xor y (b % 256 * 256) ≡ bit_xor y' (b' % 256 * 256) =
      shifts-injective 8 _ _ (bit_xor-lt 16 y _ word (omega arith))
        (bit_xor-lt 16 y' _ word' (omega arith)) e in
    let fields = sym (high_byte y b word q) ∙ inner ∙ high_byte y' b' word' q' in
    let low : y % 256 ≡ y' % 256 = omega arith in
    let high : bit_xor (y / 256) b ≡ bit_xor (y' / 256) b' = omega arith in
    let first : a ≡ a' = one_feed-injective c a a' h p p' low in
    let second : bit_xor (y / 256) b ≡ bit_xor (y / 256) b' =
      high ∙ ap (λ x. bit_xor (feed c x / 256) b') (sym first) in
    (first, bit_xor_injective (y / 256) b b' second)

-- With an `unsigned int` of 16 bits or more, two messages that differ at most in two neighbouring
-- bytes and have the same CRC are equal: every burst of errors within two bytes is found.
pub generate_crc-burst :
    (w : ℕ) (front back : List ℕ) (a b a' b' : ℕ)
    → 16 ≤ w
    → a < 256
    → b < 256
    → a' < 256
    → b' < 256
    → generate_crc w (front ++ a ∷ b ∷ back) ≡ generate_crc w (front ++ a' ∷ b' ∷ back)
    → (a ≡ a') × (b ≡ b')
unfolding feed_all
generate_crc-burst w front back a b a' b' wide p q p' q' e =
    let c : ℕ = feed_all 0 front in
    let word : c < 2 ^ 16 = feed_all-lt 0 front (omega arith) in
    two_feeds-injective c a b a' b' word p q p' q' (
      feed_all-injective (feed (feed c a) b) (feed (feed c a') b') back
        (feed-lt _ b (feed-lt c a word)) (feed-lt _ b' (feed-lt c a' word))
        (sym (feed_all-append 0 front (a ∷ b ∷ back))
          ∙ sym (generate_crc-feed_all w wide _)
          ∙ e
          ∙ generate_crc-feed_all w wide _
          ∙ feed_all-append 0 front (a' ∷ b' ∷ back)))

-- The plain sum of the bytes.
unfoldable pub sum : List ℕ → ℕ
sum [] = 0
sum (x ∷ xs) = x + sum xs

chksum_loop-sum :
    (chksum : ℕ) (octets : List ℕ)
    → chksum < 256
    → chksum_loop chksum octets ≡ (chksum + sum octets) % 256
unfolding chksum_loop sum
chksum_loop-sum chksum [] h = omega arith
chksum_loop-sum chksum (x ∷ octets) h =
    omega (arith, chksum_loop-sum ((chksum + x) % 2 ^ 8) octets (omega arith))

-- The wrapping loop gives the sum of the bytes modulo 256.
pub generate_chksum-sum : (octets : List ℕ) → generate_chksum octets ≡ sum octets % 256
unfolding generate_chksum
generate_chksum-sum octets = omega (arith, chksum_loop-sum 0 octets (omega arith))

sum-append : (xs ys : List ℕ) → sum (xs ++ ys) ≡ sum xs + sum ys
unfolding sum
sum-append [] ys = omega arith
sum-append (x ∷ xs) ys = omega (arith, sum-append xs ys)

-- Two messages that differ at most in one byte and have the same checksum are equal.
pub generate_chksum-single :
    (front back : List ℕ) (a b : ℕ)
    → a < 256
    → b < 256
    → generate_chksum (front ++ a ∷ back) ≡ generate_chksum (front ++ b ∷ back)
    → a ≡ b
unfolding sum
generate_chksum-single front back a b p q e = omega (
  arith,
  generate_chksum-sum (front ++ a ∷ back),
  generate_chksum-sum (front ++ b ∷ back),
  sum-append front (a ∷ back),
  sum-append front (b ∷ back),
)
