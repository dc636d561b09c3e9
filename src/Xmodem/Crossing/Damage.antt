-- ===== src/Xmodem/Crossing/Damage.antt =====
-- What a line may do to the data and the check bytes of a packet, and that the receiver's test of
-- src/xmodem.c finds it.
use libmodem.Crc.{generate_chksum, generate_crc, generate_crc-lt}
use libmodem.Crc.Errors.{generate_crc-residue, generate_crc-burst, generate_chksum-single}
use libmodem.Modem.{XferMode, is_xmodem}
use libmodem.Prelude.{
  ℕ, ◌+◌, ◌/◌, ◌%◌, ◌≤◌, ◌<◌, ◌≡◌, ◌≢◌, refl, sym, ap, subst, ◌∙◌, ◌⊎◌, inl, inr, true, false, List,
  [], ◌∷◌, ◌++◌, All, length, take, drop, arith, append_assoc, take-append-drop, length-append,
  length-take, length-drop,
}
use libmodem.Xmodem.Buffer.{take-append, drop-append}
use libmodem.Xmodem.Frame.{trailer, trailer_size, length-trailer}
use libmodem.Xmodem.Session.{head_of}

abbrev pub IsBytes : List ℕ → Type 0
IsBytes xs = All (λ x. x < 256) xs

-- With a CRC two neighbouring bytes change, with a checksum one byte; what arrives are bytes.
pub data Damages : XferMode → List ℕ → List ℕ → Type 0 where
  burst :
      {g : XferMode} {sent got : List ℕ} (front back : List ℕ) (a b a' b' : ℕ)
      → is_xmodem g ≡ false
      → ¬ ((a ≡ a') × (b ≡ b'))
      → IsBytes sent
      → IsBytes got
      → sent ≡ front ++ a ∷ b ∷ back
      → got ≡ front ++ a' ∷ b' ∷ back
      → Damages g sent got
  single :
      {g : XferMode} {sent got : List ℕ} (front back : List ℕ) (a b : ℕ)
      → is_xmodem g ≡ true
      → a ≢ b
      → IsBytes sent
      → IsBytes got
      → sent ≡ front ++ a ∷ back
      → got ≡ front ++ b ∷ back
      → Damages g sent got

back_part : (xs ys : List ℕ) → IsBytes (xs ++ ys) → IsBytes ys
back_part [] ys h = h
back_part (x ∷ xs) ys h = back_part xs ys h.1

-- The first and the last byte of a list that is not empty.
snoc-injective : (xs ys : List ℕ) (c d : ℕ) → xs ++ c ∷ [] ≡ ys ++ d ∷ [] → (xs ≡ ys) × (c ≡ d)
snoc-injective xs ys c d e =
    let same : length xs ≡ length ys =
      omega
        (arith, ap (length {0}) e, length-append {0} xs (c ∷ []), length-append {0} ys (d ∷ [])) in
    (
      sym (take-append xs (c ∷ []) (length xs) refl)
          ∙ ap (take (length xs)) e
          ∙ take-append ys (d ∷ []) (length xs) same,
      ap head_of (
          sym (drop-append xs (c ∷ []) (length xs) refl)
          ∙ ap (drop (length xs)) e
          ∙ drop-append ys (d ∷ []) (length xs) same),
    )

last-cases : (xs : List ℕ) → (xs ≡ []) ⊎ ((ys : List ℕ) × (z : ℕ) × (xs ≡ ys ++ z ∷ []))
last-cases [] = inl refl
last-cases (x ∷ xs) = elim (last-cases xs) [
  | inl e ↦ inr ([], x, ap (λ t. x ∷ t) e)
  | inr (ys, z, e) ↦ inr (x ∷ ys, z, ap (λ t. x ∷ t) e)
]

-- A changed byte of a block with its checksum behind it is found.
single_found :
    (front back block block' : List ℕ) (a b : ℕ)
    → a < 256
    → b < 256
    → block ++ generate_chksum block ∷ [] ≡ front ++ a ∷ back
    → block' ++ generate_chksum block' ∷ [] ≡ front ++ b ∷ back
    → a ≡ b
single_found front back block block' a b p q e e' = elim (last-cases back) [
  | inl none ↦
      let (same, sum) =
        snoc-injective block front (generate_chksum block) a (e ∙ ap (λ t. front ++ a ∷ t) none) in
      let (same', sum') =
        snoc-injective block' front (generate_chksum block') b
          (e' ∙ ap (λ t. front ++ b ∷ t) none) in
      sym sum ∙ ap generate_chksum (same ∙ sym same') ∙ sum'
  | inr (behind, z, more) ↦
      let split =
        λ (x : ℕ). ap (λ t. front ++ x ∷ t) more ∙ sym (append_assoc front (x ∷ behind) (z ∷ [])) in
      let (same, sum) =
        snoc-injective block (front ++ a ∷ behind) (generate_chksum block) z (e ∙ split a) in
      let (same', sum') =
        snoc-injective block' (front ++ b ∷ behind) (generate_chksum block') z (e' ∙ split b) in
      generate_chksum-single front behind a b p q
        (ap generate_chksum (sym same) ∙ sum ∙ sym sum' ∙ ap generate_chksum same')
]

-- Two neighbouring bytes of a block with its CRC behind it that changed are found.
burst_found :
    (w : ℕ) (front back block block' : List ℕ) (a b a' b' : ℕ)
    → 16 ≤ w
    → a < 256
    → b < 256
    → a' < 256
    → b' < 256
    → block ++ (generate_crc w block / 256) ∷ (generate_crc w block % 256) ∷ []
      ≡ front ++ a ∷ b ∷ back
    → block' ++ (generate_crc w block' / 256) ∷ (generate_crc w block' % 256) ∷ []
      ≡ front ++ a' ∷ b' ∷ back
    → (a ≡ a') × (b ≡ b')
burst_found w front back block block' a b a' b' wide p q p' q' e e' =
    generate_crc-burst w front back a b a' b' wide p q p' q'
      (ap (generate_crc w) (sym e) ∙ clear block ∙ sym (clear block') ∙ ap (generate_crc w) e')
  where
    clear :
        (xs : List ℕ)
        → generate_crc w (xs ++ (generate_crc w xs / 256) ∷ (generate_crc w xs % 256) ∷ []) ≡ 0
    clear xs =
        let word = generate_crc-lt w xs in
        (generate_crc-residue w xs (generate_crc w xs / 256) (generate_crc w xs % 256) wide
            (omega (arith, word)) (omega arith)).1
          (omega arith)

crc_trailer :
    (w : ℕ) (g : XferMode) (xs : List ℕ)
    → is_xmodem g ≡ false
    → trailer w g xs ≡ (generate_crc w xs / 256) ∷ (generate_crc w xs % 256) ∷ []
crc_trailer w g xs crc = rw crc refl

sum_trailer :
    (w : ℕ) (g : XferMode) (xs : List ℕ)
    → is_xmodem g ≡ true
    → trailer w g xs ≡ generate_chksum xs ∷ []
sum_trailer w g xs sum = rw sum refl

-- With an `unsigned int` of 16 bits or more, a packet whose data and check bytes were damaged does
-- not have the check bytes of the data that arrives.
damage_found :
    (w : ℕ) (g : XferMode) (block block' tag : List ℕ)
    → 16 ≤ w
    → Damages g (block ++ trailer w g block) (block' ++ tag)
    → tag ≢ trailer w g block'
damage_found w g block block' tag wide (burst front back a b a' b' crc other s r e e') same =
    let check = λ (xs : List ℕ). ap (λ t. xs ++ t) (crc_trailer w g xs crc) in
    let sent = subst IsBytes e s in
    let got = subst IsBytes e' r in
    other (
      burst_found w front back block block' a b a' b' wide (back_part front _ sent).0
        (back_part front _ sent).1.0 (back_part front _ got).0 (back_part front _ got).1.0
        (sym (check block) ∙ e) (sym (check block') ∙ ap (λ t. block' ++ t) (sym same) ∙ e'))
damage_found w g block block' tag wide (single front back a b sum other s r e e') same =
    let check = λ (xs : List ℕ). ap (λ t. xs ++ t) (sum_trailer w g xs sum) in
    other (
      single_found front back block block' a b (back_part front _ (subst IsBytes e s)).0
        (back_part front _ (subst IsBytes e' r)).0 (sym (check block) ∙ e)
        (sym (check block') ∙ ap (λ t. block' ++ t) (sym same) ∙ e'))

pub Damages-length :
    {g : XferMode} {sent got : List ℕ} → Damages g sent got → length got ≡ length sent
Damages-length (burst front back a b a' b' crc other s r e e') = omega (
  arith,
  ap (length {0}) e,
  ap (length {0}) e',
  length-append {0} front (a ∷ b ∷ back),
  length-append {0} front (a' ∷ b' ∷ back),
)
Damages-length (single front back a b sum other s r e e') = omega (
  arith,
  ap (length {0}) e,
  ap (length {0}) e',
  length-append {0} front (a ∷ back),
  length-append {0} front (b ∷ back),
)

Damages-IsBytes : {g : XferMode} {sent got : List ℕ} → Damages g sent got → IsBytes got
Damages-IsBytes (burst front back a b a' b' crc other s r e e') = r
Damages-IsBytes (single front back a b sum other s r e e') = r

-- What arrives for a damaged packet is data of the same size and check bytes that do not fit.
pub damage_apart :
    (w : ℕ) (g : XferMode) (block got : List ℕ)
    → 16 ≤ w
    → Damages g (block ++ trailer w g block) got
    → (block' tag : List ℕ) × (got ≡ block' ++ tag)
      × (length block' ≡ length block)
      × (length tag ≡ trailer_size g)
      × IsBytes tag
      × (tag ≢ trailer w g block')
damage_apart w g block got wide damaged =
    let n : ℕ = length block in
    let whole : length got ≡ n + trailer_size g = omega (
      arith,
      Damages-length damaged,
      length-append {0} block (trailer w g block),
      length-trailer w g block,
    ) in
    let parts = sym (take-append-drop n got) in
    (
      take n got,
      drop n got,
      parts,
      omega (arith, whole, length-take {0} n got),
      omega (arith, whole, length-drop {0} n got),
      back_part (take n got) (drop n got) (subst IsBytes parts (Damages-IsBytes damaged)),
      damage_found w g block (take n got) (drop n got) wide
          (subst (Damages g (block ++ trailer w g block)) parts damaged),
    )
