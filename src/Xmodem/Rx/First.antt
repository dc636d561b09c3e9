-- ===== src/Xmodem/Rx/First.antt =====
-- The wait of `xmodem_rx` for the first character of a packet, on a line that works.
use libmodem.Modem.{eot, soh, data_start, XferMode, xmodem, xmodem_crc, xmodem_1k, is_xmodem_1k}
use libmodem.Prelude.{
  ℕ, suc, ◌+◌, ◌-◌, ◌%◌, ◌^◌, ◌≤◌, ◌≡◌, ◌≢◌, refl, Bool, true, false, ◌&&◌, ◌||◌, List, [], ◌∷◌,
  ltb, ◌==◌, if◌then◌else◌, arith, Bool-cases, inl, inr, ap, ◌∙◌,
}
use libmodem.Serial.Primitives.{Serprim, Handle}
use libmodem.Xmodem.Buffer.{at, load_ok, store_ok}
use libmodem.Xmodem.Frame.{start_of, size_of, trailer_size}
use libmodem.Xmodem.Line.{IsLine, rcv_ok}
use libmodem.Xmodem.Rx.{RxVars, rx_start, fallback, adjust, first_char_loop}
use libmodem.Xmodem.Rx.Course.{packet_mode, patience}
use libmodem.Xmodem.Session.{Session, Run, pure, load_byte}

-- The variables of `xmodem_rx` in a mode and for a size of packets.
abbrev pub vars : XferMode → Bool → ℕ → ℕ → ℕ → Bool → RxVars
vars f small n tx_code error_count eot_detected = record {
  flags = f;
  tx_code = tx_code;
  error_count = error_count;
  expected_start_char_1 = start_of f;
  expected_start_char_2 = soh;
  expected_block_no = n;
  expected_comp_block_no = 255 - n;
  eot_detected = eot_detected;
  using_128_blocks_in_1k = is_xmodem_1k f && small;
  chksum_offset = data_start + size_of (packet_mode f small);
  packet_end = data_start + size_of (packet_mode f small) + trailer_size (packet_mode f small);
}

pub rx_start-vars :
    (w : ℕ) (f : XferMode) → rx_start w f ≡ vars f false 1 (rx_start w f).tx_code (2 ^ w - 1) false
unfolding rx_start
rx_start-vars w xmodem = refl
rx_start-vars w xmodem_crc = refl
rx_start-vars w xmodem_1k = refl

-- The start character sets the size of a packet.
pub adjust-vars :
    (f : XferMode) (small small' : Bool) (n tx tries : ℕ)
    → adjust (start_of (packet_mode f small')) (vars f small n tx tries false)
      ≡ vars f small' n tx tries false
unfolding adjust
adjust-vars xmodem small small' n tx tries = refl
adjust-vars xmodem_crc small small' n tx tries = refl
adjust-vars xmodem_1k true true n tx tries = refl
adjust-vars xmodem_1k true false n tx tries = refl
adjust-vars xmodem_1k false true n tx tries = refl
adjust-vars xmodem_1k false false n tx tries = refl

pub within : (f : XferMode) (tries : ℕ) → tries ≤ patience f → ltb 11 tries ≡ false
within xmodem tries few = ground arith
within xmodem_crc tries few = ground arith
within xmodem_1k tries few = ground arith

pub fallback-vars :
    (f : XferMode) (small : Bool) (n tx tries : ℕ)
    → tries ≤ patience f
    → fallback (vars f small n tx tries false) ≡ vars f small n tx tries false
unfolding fallback
fallback-vars xmodem small n tx tries few = refl
fallback-vars xmodem_crc small n tx tries few = rw few_tries refl
  where
    few_tries : ltb 2 tries ≡ false
    few_tries = ground arith
fallback-vars xmodem_1k small n tx tries few = refl

-- What a character is to the wait.
pub data Sign : Type 0 where
  starts ends means_nothing : Sign

abbrev pub sign_of : XferMode → ℕ → Sign
sign_of f x =
    if (x == soh) || (x == start_of f) then starts else if x == eot then ends else means_nothing

pub sign-eot : (f : XferMode) → sign_of f eot ≡ ends
sign-eot xmodem = refl
sign-eot xmodem_crc = refl
sign-eot xmodem_1k = refl

pub sign-start_of :
    (f : XferMode) (small : Bool) → sign_of f (start_of (packet_mode f small)) ≡ starts
sign-start_of xmodem small = refl
sign-start_of xmodem_crc small = refl
sign-start_of xmodem_1k true = refl
sign-start_of xmodem_1k false = refl

pub untrue : (a b : ℕ) → a ≢ b → (a == b) ≡ false
untrue a b h = ground arith

pub sign-noise :
    (f : XferMode) (x : ℕ) → (x ≢ soh) × (x ≢ start_of f) × (x ≢ eot) → sign_of f x ≡ means_nothing
sign-noise f x (p, q, r) = rw (untrue x soh p, untrue x (start_of f) q, untrue x eot r)

module _ {P : Serprim} {h : Handle} {C : Type 0} (L : IsLine P h) where
  abbrev pub goes_on :
      ℕ → XferMode → Bool → ℕ → ℕ → ℕ → Sign → Session P C → Run (Session P C) RxVars
  goes_on fuel f small n tx tries starts = pure (vars f small n tx tries false)
  goes_on fuel f small n tx tries ends = pure (vars f small n tx tries true)
  goes_on fuel f small n tx tries means_nothing =
      first_char_loop h fuel (vars f small n tx tries false)

  -- One character is read into the buffer, and it decides how the wait goes on.
  pub first_step :
      (fuel : ℕ) (f : XferMode) (small : Bool) (n tx err tries x b : ℕ) (rest inc : List ℕ) (c : C)
      (p : P.Port)
      → (err + 1) % 2 ^ P.int_bits ≡ tries
      → tries ≤ patience f
      → L.incoming p ≡ x ∷ inc
      → (p' : P.Port) × (first_char_loop h
            (suc fuel)
            (vars f small n tx err false)
            (at P (b ∷ rest) c p)
          ≡ goes_on fuel f small n tx tries (sign_of f x) (at P (x ∷ rest) c p'))
        × (L.incoming p' ≡ inc)
        × (L.outgoing p' ≡ L.outgoing p)
        × (L.later p' ≡ L.later p)
  unfolding first_char_loop load_byte
  first_step fuel f small n tx err tries x b rest inc c p counted few arrives =
      let (p', got, left, same, quiet) =
        rcv_ok L (x ∷ []) inc 1 10 (at P (b ∷ rest) c p) arrives refl in
      let kept : fallback (vars f small n tx ((err + 1) % 2 ^ P.int_bits) false)
          ≡ vars f small n tx tries false =
        ap (λ (t : ℕ). fallback (vars f small n tx t false)) counted
        ∙ fallback-vars f small n tx tries few in
      (
        p',
        rw
            (
              counted,
              within f tries few,
              fallback-vars f small n tx tries few,
              got,
              store_ok {P = P} c p' [] (b ∷ []) rest 0 (x ∷ []) refl refl,
              load_ok {P = P} c p' [] (x ∷ []) rest 0 1 refl refl,
            )
            (elim (Bool-cases ((x == soh) || (x == start_of f))) [
              | inl e ↦ rw e refl
              | inr e ↦ elim (Bool-cases (x == eot)) [
                | inl e' ↦ rw (e, e') refl
                | inr e' ↦
                    rw (e, e') (ap (λ v. first_char_loop h fuel v (at P (x ∷ rest) c p')) kept)
              ]
            ]),
        left,
        same,
        quiet,
      )
