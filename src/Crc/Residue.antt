-- ===== src/Crc/Residue.antt =====
-- What the receiver's test `generate_crc(packet) != 0` decides, and which errors it finds.
use native.Mathlib.Nat.{pow-suc, one-le-pow}
use libmodem.Bits.{bit_xor-lt, bit_xor-zero, bit_xor-fields}
use libmodem.Bits.{bit_xor_self, bit_xor_cancel, eq_of_bit_xor}
use libmodem.Crc.{crc_poly}
use libmodem.Crc.Register.{shift, shifts, feed, feed_all}
use libmodem.Crc.Register.{shifts-linear}
use libmodem.Prelude.{
  ℕ, zero, suc, ◌+◌, ◌*◌, ◌/◌, ◌%◌, ◌^◌, ◌<◌, bit_xor, ◌≡◌, refl, sym, ap, ap₂, ◌∙◌, List, [], ◌∷◌,
  ◌++◌, arith,
}

-- Every register is a word.
pub shift-lt : (c : ℕ) → shift c < 2 ^ 16
unfolding shift
shift-lt c = bit_xor-lt 16 _ _ (omega arith) (omega arith)

shifts-lt : (n c : ℕ) → c < 2 ^ 16 → shifts n c < 2 ^ 16
unfolding shifts
shifts-lt zero c h = h
shifts-lt (suc n) c h = shifts-lt n (shift c) (shift-lt c)

pub feed-lt : (c octet : ℕ) → c < 2 ^ 16 → feed c octet < 2 ^ 16
unfolding feed
feed-lt c octet h = shifts-lt 8 _ (bit_xor-lt 16 _ _ h (omega arith))

pub feed_all-lt : (c : ℕ) (octets : List ℕ) → c < 2 ^ 16 → feed_all c octets < 2 ^ 16
unfolding feed_all
feed_all-lt c [] h = h
feed_all-lt c (octet ∷ octets) h = feed_all-lt (feed c octet) octets (feed-lt c octet h)

-- The polynomial has the term 1, so nothing but 0 is shifted to 0.
shift-kernel : (c : ℕ) → c < 2 ^ 16 → shift c ≡ 0 → c ≡ 0
unfolding shift
shift-kernel c h e = let same = eq_of_bit_xor (c * 2 % 2 ^ 16) _ e in omega arith

pub shifts-kernel : (n c : ℕ) → c < 2 ^ 16 → shifts n c ≡ 0 → c ≡ 0
unfolding shifts
shifts-kernel zero c h e = e
shifts-kernel (suc n) c h e = shift-kernel c h (shifts-kernel n (shift c) (shift-lt c) e)

pub shifts-injective : (n a b : ℕ) → a < 2 ^ 16 → b < 2 ^ 16 → shifts n a ≡ shifts n b → a ≡ b
shifts-injective n a b p q e = eq_of_bit_xor a b (
    shifts-kernel n (bit_xor a b) (bit_xor-lt 16 a b p q)
      (shifts-linear n a b ∙ ap (λ t. bit_xor t (shifts n b)) e ∙ bit_xor_self (shifts n b)))

shift-small : (c : ℕ) → c < 2 ^ 15 → shift c ≡ c * 2
unfolding shift
shift-small c h =
    let unselected : c / 2 ^ 15 % 2 * crc_poly ≡ 0 = omega arith in
    ap (bit_xor (c * 2 % 2 ^ 16)) unselected ∙ bit_xor-zero _ ∙ omega arith

shifts-small : (n c : ℕ) → c * 2 ^ n < 2 ^ 16 → shifts n c ≡ c * 2 ^ n
unfolding shifts
shifts-small zero c h = omega arith
shifts-small (suc n) c h =
    let two : c * 2 ^ suc n ≡ c * 2 * 2 ^ n = ap (λ (t : ℕ). c * t) (pow-suc 2 n) ∙ omega arith in
    let fits : c * 2 * 2 ^ n < 2 ^ 16 = omega arith in
    let low : c < 2 ^ 15 = grind (arith, one-le-pow n 2) in
    ap (shifts n) (shift-small c low) ∙ shifts-small n (c * 2) fits ∙ sym two

-- A byte moves up whole.
pub shifts-byte : (c : ℕ) → c < 256 → shifts 8 c ≡ c * 256
shifts-byte c h = shifts-small 8 c (omega arith)

feed-injective : (c d octet : ℕ) → c < 2 ^ 16 → d < 2 ^ 16 → feed c octet ≡ feed d octet → c ≡ d
unfolding feed
feed-injective c d octet p q e =
    let same =
      shifts-injective 8 _ _ (bit_xor-lt 16 c _ p (omega arith)) (bit_xor-lt 16 d _ q (omega arith))
        e in
    sym (bit_xor_cancel c _) ∙ ap (λ t. bit_xor t (octet % 256 * 256)) same ∙ bit_xor_cancel d _

pub feed_all-injective :
    (c d : ℕ) (octets : List ℕ)
    → c < 2 ^ 16
    → d < 2 ^ 16
    → feed_all c octets ≡ feed_all d octets
    → c ≡ d
unfolding feed_all
feed_all-injective c d [] p q e = e
feed_all-injective c d (octet ∷ octets) p q e = feed-injective c d octet p q (
    feed_all-injective (feed c octet) (feed d octet) octets (feed-lt c octet p) (feed-lt d octet q)
      e)

pub feed_all-append : (c : ℕ) (xs ys : List ℕ) → feed_all c (xs ++ ys) ≡ feed_all (feed_all c xs) ys
unfolding feed_all
feed_all-append c [] ys = refl
feed_all-append c (x ∷ xs) ys = feed_all-append (feed c x) xs ys

-- A byte is added to the high byte of the register.
pub high_byte :
    (c x : ℕ)
    → c < 2 ^ 16
    → x < 256
    → bit_xor c (x % 256 * 256) ≡ bit_xor (c / 256) x * 256 + c % 256
high_byte c x p q =
    let left : c ≡ c / 256 * 2 ^ 8 + c % 256 = omega arith in
    let right : x % 256 * 256 ≡ x * 2 ^ 8 + 0 = omega arith in
    ap₂ bit_xor left right
    ∙ bit_xor-fields 8 (c / 256) (c % 256) x 0 (omega arith) (omega arith)
    ∙ ap (λ (t : ℕ). bit_xor (c / 256) x * 256 + t) (bit_xor-zero (c % 256))

-- The two bytes of the register, sent high byte first, clear it; no other two do.
pub two_bytes_clear : (c : ℕ) → c < 2 ^ 16 → feed (feed c (c / 256)) (c % 256) ≡ 0
unfolding feed
two_bytes_clear c h =
    let first : bit_xor c (c / 256 % 256 * 256) ≡ c % 256 =
      high_byte c (c / 256) h (omega arith) ∙ omega (arith, bit_xor_self (c / 256)) in
    let second : bit_xor (c % 256 * 256) (c % 256 % 256 * 256) ≡ 0 =
      ap (bit_xor (c % 256 * 256)) (omega arith) ∙ bit_xor_self (c % 256 * 256) in
    ap (λ r. shifts 8 (bit_xor r (c % 256 % 256 * 256)))
      (ap (shifts 8) first ∙ shifts-byte (c % 256) (omega arith))
    ∙ ap (shifts 8) second
    ∙ shifts-byte 0 (omega arith)

pub two_bytes_only :
    (c hi lo : ℕ) → c < 2 ^ 16 → hi < 256 → lo < 256 → feed (feed c hi) lo ≡ 0 → c ≡ hi * 256 + lo
unfolding feed
two_bytes_only c hi lo h p q e =
    let y : ℕ = shifts 8 (bit_xor c (hi % 256 * 256)) in
    let y_word : y < 2 ^ 16 = feed-lt c hi h in
    let last : y ≡ lo * 256 =
      eq_of_bit_xor y (lo % 256 * 256)
        (shifts-kernel 8 _ (bit_xor-lt 16 y _ y_word (omega arith)) e)
      ∙ omega arith in
    let low : bit_xor c (hi % 256 * 256) ≡ lo =
      shifts-injective 8 _ lo (bit_xor-lt 16 c _ h (omega arith)) (omega arith)
        (last ∙ sym (shifts-byte lo q)) in
    let split = sym (high_byte c hi h p) ∙ low in
    let clear : bit_xor (c / 256) hi ≡ 0 = omega arith in
    let same : c / 256 ≡ hi = eq_of_bit_xor (c / 256) hi clear in omega arith
