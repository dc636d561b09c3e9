-- ===== src/Xmodem/Rx/Verdict.antt =====
-- The tests of `xmodem_rx` on the data and the trailer of a packet: they pass for the trailer of
-- the protocol and for no other.
use libmodem.Crc.{generate_chksum, generate_crc, generate_crc-lt}
use libmodem.Crc.Errors.{generate_crc-residue}
use libmodem.Modem.{
  data_start, chksum_crc, ModemError, modem_no_errors, bad_crc_chksum, XferMode, xmodem, xmodem_crc,
  xmodem_1k, is_xmodem,
}
use libmodem.Prelude.{
  ℕ, ◌+◌, ◌-◌, ◌/◌, ◌%◌, ◌≤◌, ◌<◌, ◌≡◌, ◌≢◌, refl, sym, ap, ap₂, Bool, true, false, not, List, [],
  ◌∷◌, ◌++◌, All, length, ◌==◌, if◌then◌else◌, arith, append_assoc, length-append,
}
use libmodem.Serial.Primitives.{Serprim}
use libmodem.Xmodem.Buffer.{at, load_ok}
use libmodem.Xmodem.Frame.{size_of, trailer_size, trailer}
use libmodem.Xmodem.Rx.{check_sum}
use libmodem.Xmodem.Rx.Course.{packet_mode}
use libmodem.Xmodem.Rx.First.{vars}
use libmodem.Xmodem.Session.{ok, load_byte}

-- What a packet's data and trailer are to the tests.
abbrev pub verdict : ℕ → XferMode → List ℕ → List ℕ → ModemError
verdict w f block (t ∷ []) =
    if not (generate_chksum block == t) then bad_crc_chksum else modem_no_errors
verdict w f block tag =
    if not (generate_crc w (block ++ tag) == 0) then bad_crc_chksum else modem_no_errors

equal_test : (a b : ℕ) → a ≡ b → (a == b) ≡ true
equal_test a b h = ground arith

unequal_test : (a b : ℕ) → a ≢ b → (a == b) ≡ false
unequal_test a b h = ground arith

crc_fits :
    (w : ℕ) (block : List ℕ)
    → 16 ≤ w
    → generate_crc w (block ++ (generate_crc w block / 256) ∷ (generate_crc w block % 256) ∷ []) ≡ 0
crc_fits w block wide =
    let c : ℕ = generate_crc w block in
    let small = generate_crc-lt w block in
    (generate_crc-residue w block (c / 256) (c % 256) wide (omega arith) (omega arith)).1
      (omega arith)

-- The trailer of the protocol is taken.
pub verdict-trailer :
    (w : ℕ) (g : XferMode) (block : List ℕ)
    → 16 ≤ w
    → verdict w g block (trailer w g block) ≡ modem_no_errors
verdict-trailer w xmodem block wide =
    rw (equal_test (generate_chksum block) (generate_chksum block) refl)
verdict-trailer w xmodem_crc block wide = rw (equal_test _ 0 (crc_fits w block wide))
verdict-trailer w xmodem_1k block wide = rw (equal_test _ 0 (crc_fits w block wide))

crc_differs :
    (w hi lo : ℕ) (block : List ℕ)
    → 16 ≤ w
    → hi < 256
    → lo < 256
    → hi ∷ lo ∷ [] ≢ (generate_crc w block / 256) ∷ (generate_crc w block % 256) ∷ []
    → generate_crc w (block ++ hi ∷ lo ∷ []) ≢ 0
crc_differs w hi lo block wide p q different e =
    let same = (generate_crc-residue w block hi lo wide p q).0 e in
    different (ap₂ (λ (x : ℕ) (y : ℕ). x ∷ y ∷ []) (omega arith) (omega arith))

-- Any other is not.
pub verdict-other :
    (w : ℕ) (g : XferMode) (block tag : List ℕ)
    → 16 ≤ w
    → length tag ≡ trailer_size g
    → All (λ x. x < 256) tag
    → tag ≢ trailer w g block
    → verdict w g block tag ≡ bad_crc_chksum
verdict-other w xmodem block (t ∷ []) wide e bytes different =
    rw (unequal_test (generate_chksum block) t (λ e. different (ap (λ (x : ℕ). x ∷ []) (sym e))))
verdict-other w xmodem block [] wide e bytes different = absurd (omega arith)
verdict-other w xmodem block (t ∷ u ∷ tag) wide e bytes different = absurd (omega arith)
verdict-other w xmodem_crc block (t ∷ u ∷ []) wide e (p, (q, r)) different =
    rw (unequal_test _ 0 (crc_differs w t u block wide p q different))
verdict-other w xmodem_crc block [] wide e bytes different = absurd (omega arith)
verdict-other w xmodem_crc block (t ∷ []) wide e bytes different = absurd (omega arith)
verdict-other w xmodem_crc block (t ∷ u ∷ x ∷ tag) wide e bytes different = absurd (omega arith)
verdict-other w xmodem_1k block (t ∷ u ∷ []) wide e (p, (q, r)) different =
    rw (unequal_test _ 0 (crc_differs w t u block wide p q different))
verdict-other w xmodem_1k block [] wide e bytes different = absurd (omega arith)
verdict-other w xmodem_1k block (t ∷ []) wide e bytes different = absurd (omega arith)
verdict-other w xmodem_1k block (t ∷ u ∷ x ∷ tag) wide e bytes different = absurd (omega arith)

module _ {P : Serprim} {C : Type 0} (c : C) (p : P.Port) where
  chksum_lem :
      (small : Bool) (n tx tries a n1 n2 t : ℕ) (block back : List ℕ)
      → length block ≡ 128
      → check_sum
          (vars xmodem small n tx tries false)
          (at P (a ∷ n1 ∷ n2 ∷ ((block ++ t ∷ []) ++ back)) c p)
        ≡ ok
            (verdict P.int_bits xmodem block (t ∷ []))
            (at P (a ∷ n1 ∷ n2 ∷ ((block ++ t ∷ []) ++ back)) c p)
  unfolding check_sum load_byte
  chksum_lem small n tx tries a n1 n2 t block back e = rw (
    append_assoc block (t ∷ []) back,
    load_ok {P = P} c p (a ∷ n1 ∷ n2 ∷ []) block (t ∷ back) data_start 128 refl (sym e),
    load_ok {P = P} c p (a ∷ n1 ∷ n2 ∷ block) (t ∷ []) back chksum_crc 1 (omega arith) refl,
  )

  crc_lem :
      (f : XferMode) (small : Bool) (n tx tries a n1 n2 : ℕ) (block tag back : List ℕ)
      → is_xmodem f ≡ false
      → length block ≡ size_of (packet_mode f small)
      → length tag ≡ trailer_size (packet_mode f small)
      → check_sum
          (vars f small n tx tries false)
          (at P (a ∷ n1 ∷ n2 ∷ ((block ++ tag) ++ back)) c p)
        ≡ ok
            (if not (generate_crc P.int_bits (block ++ tag) == 0)
              then bad_crc_chksum
              else modem_no_errors)
            (at P (a ∷ n1 ∷ n2 ∷ ((block ++ tag) ++ back)) c p)
  unfolding check_sum
  crc_lem f small n tx tries a n1 n2 block tag back crc e e' =
      let size : ℕ =
        data_start
        + size_of (packet_mode f small)
        + trailer_size (packet_mode f small)
        - data_start in
      rw (
        crc,
        load_ok {P = P} c p (a ∷ n1 ∷ n2 ∷ []) (block ++ tag) back data_start size refl
            (omega (arith, length-append {0} block tag)),
      )

  -- The tests read the packet and give their verdict.
  pub check_sum_lem :
      (f : XferMode) (small : Bool) (n tx tries a n1 n2 : ℕ) (block tag back : List ℕ)
      → length block ≡ size_of (packet_mode f small)
      → length tag ≡ trailer_size (packet_mode f small)
      → check_sum
          (vars f small n tx tries false)
          (at P (a ∷ n1 ∷ n2 ∷ ((block ++ tag) ++ back)) c p)
        ≡ ok
            (verdict P.int_bits (packet_mode f small) block tag)
            (at P (a ∷ n1 ∷ n2 ∷ ((block ++ tag) ++ back)) c p)
  check_sum_lem xmodem small n tx tries a n1 n2 block (t ∷ []) back e e' =
      chksum_lem small n tx tries a n1 n2 t block back e
  check_sum_lem xmodem small n tx tries a n1 n2 block [] back e e' = absurd (omega arith)
  check_sum_lem xmodem small n tx tries a n1 n2 block (t ∷ u ∷ tag) back e e' = absurd (omega arith)
  check_sum_lem xmodem_crc small n tx tries a n1 n2 block (t ∷ u ∷ tag) back e e' =
      crc_lem xmodem_crc small n tx tries a n1 n2 block (t ∷ u ∷ tag) back refl e e'
  check_sum_lem xmodem_crc small n tx tries a n1 n2 block [] back e e' = absurd (omega arith)
  check_sum_lem xmodem_crc small n tx tries a n1 n2 block (t ∷ []) back e e' = absurd (omega arith)
  check_sum_lem xmodem_1k small n tx tries a n1 n2 block (t ∷ u ∷ tag) back e e' =
      crc_lem xmodem_1k small n tx tries a n1 n2 block (t ∷ u ∷ tag) back refl e e'
  check_sum_lem xmodem_1k true n tx tries a n1 n2 block [] back e e' = absurd (omega arith)
  check_sum_lem xmodem_1k true n tx tries a n1 n2 block (t ∷ []) back e e' = absurd (omega arith)
  check_sum_lem xmodem_1k false n tx tries a n1 n2 block [] back e e' = absurd (omega arith)
  check_sum_lem xmodem_1k false n tx tries a n1 n2 block (t ∷ []) back e e' = absurd (omega arith)
