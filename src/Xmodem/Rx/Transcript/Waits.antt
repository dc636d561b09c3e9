-- ===== src/Xmodem/Rx/Transcript/Waits.antt =====
-- The wait of `xmodem_rx` for a first character, on a line that pauses: a wait in vain, the
-- fallback to XMODEM, and the end of its patience.
use libmodem.Modem.{soh, eot, nak, can, modem_timeout, XferMode, xmodem, xmodem_crc}
use libmodem.Prelude.{
  ℕ, suc, ◌+◌, ◌%◌, ◌^◌, ◌≤◌, ◌<◌, ◌≡◌, refl, sym, ap, ◌∙◌, Bool, true, false, List, [], ◌∷◌, ◌++◌,
  ltb, arith,
}
use libmodem.Serial.Primitives.{Serprim, Handle}
use libmodem.Xmodem.Buffer.{at, load_ok, store_ok}
use libmodem.Xmodem.Frame.{start_of}
use libmodem.Xmodem.Line.{IsLine, snd_ok}
use libmodem.Xmodem.Rx.{fallback, first_char_loop}
use libmodem.Xmodem.Rx.Course.{patience, IsIdle}
use libmodem.Xmodem.Rx.First.{vars, within, fallback-vars, untrue}
use libmodem.Xmodem.Pauses.{Pauses, rcv_late}
use libmodem.Xmodem.Rx.Looks.{round-look}
use libmodem.Xmodem.Session.{stop, load_byte}

fallback-downgraded :
    (small : Bool) (n tx tries : ℕ)
    → ltb 2 tries ≡ true
    → fallback (vars xmodem_crc small n tx tries false) ≡ vars xmodem small n nak tries false
unfolding fallback
fallback-downgraded small n tx tries more = rw more refl

module _ {P : Serprim} {h : Handle} {L : IsLine P h} (D : Pauses L) {C : Type 0} where
  -- A wait in vain: the character that asks for a packet is sent, and the wait begins again.
  pub wait_late :
      (fuel : ℕ) (f : XferMode) (small : Bool) (n tx err tries b : ℕ) (rest next : List ℕ)
      (others : List (List ℕ)) (c : C) (p : P.Port)
      → (err + 1) % 2 ^ P.int_bits ≡ tries
      → tries ≤ patience f
      → IsIdle f b
      → L.incoming p ≡ []
      → L.later p ≡ next ∷ others
      → (p' : P.Port) × (first_char_loop h
            (suc fuel)
            (vars f small n tx err false)
            (at P (b ∷ rest) c p)
          ≡ first_char_loop h fuel (vars f small n tx tries false) (at P (b ∷ rest) c p'))
        × (L.incoming p' ≡ next)
        × (L.outgoing p' ≡ L.outgoing p ++ tx ∷ [])
        × (L.later p' ≡ others)
  unfolding first_char_loop load_byte
  wait_late fuel f small n tx err tries b rest next others c p counted few (q1, q2, q3) arrives
        pauses =
      let (p1, got, in1, out1, quiet1) =
        rcv_late D [] next others 1 10 (at P (b ∷ rest) c p) arrives pauses (omega arith) in
      let (p2, sent, in2, out2, quiet2) = snd_ok L (tx ∷ []) (at P (b ∷ rest) c p1) in
      (
        p2,
        round-look h fuel (vars f small n tx err false) (vars f small n tx tries false)
              (at P (b ∷ rest) c p) (ap (ltb 11) counted ∙ within f tries few)
              (ap (λ (t : ℕ). fallback (vars f small n tx t false)) counted
                ∙ fallback-vars f small n tx tries few)
            ∙ rw
                (
                  got,
                  store_ok {P = P} c p1 [] [] (b ∷ rest) 0 [] refl refl,
                  load_ok {P = P} c p1 [] (b ∷ []) rest 0 1 refl refl,
                  untrue b soh q1,
                  untrue b (start_of f) q2,
                  untrue b eot q3,
                  sent,
                )
                refl,
        in2 ∙ in1,
        out2 ∙ ap (λ t. t ++ tx ∷ []) out1,
        quiet2 ∙ quiet1,
      )

  -- The wait that makes twelve in vain ends the transfer.
  pub wait_over :
      (fuel : ℕ) (f : XferMode) (small : Bool) (n tx err b : ℕ) (rest : List ℕ) (c : C) (p : P.Port)
      → (err + 1) % 2 ^ P.int_bits ≡ 12
      → (p' : P.Port) × (first_char_loop h
            (suc fuel)
            (vars f small n tx err false)
            (at P (b ∷ rest) c p)
          ≡ stop modem_timeout (at P (b ∷ rest) c p'))
        × (L.incoming p' ≡ L.incoming p)
        × (L.outgoing p' ≡ L.outgoing p ++ can ∷ [])
        × (L.later p' ≡ L.later p)
  unfolding first_char_loop
  wait_over fuel f small n tx err b rest c p counted =
      let (p1, sent, in1, out1, quiet1) = snd_ok L (can ∷ []) (at P (b ∷ rest) c p) in
      (p1, rw (counted, sent) refl, in1, out1, quiet1)

  -- After three waits in vain XMODEM-CRC is XMODEM.
  pub wait_downgraded :
      (fuel : ℕ) (small : Bool) (n tx err tries b : ℕ) (rest : List ℕ) (c : C) (p : P.Port)
      → (err + 1) % 2 ^ P.int_bits ≡ tries
      → 2 < tries
      → tries ≤ 11
      → first_char_loop h (suc fuel) (vars xmodem_crc small n tx err false) (at P (b ∷ rest) c p)
        ≡ first_char_loop h (suc fuel) (vars xmodem small n nak err false) (at P (b ∷ rest) c p)
  wait_downgraded fuel small n tx err tries b rest c p counted many few =
      let s = at P (b ∷ rest) c p in
      let more : ltb 2 tries ≡ true = ground arith in
      let soon : ltb 11 ((err + 1) % 2 ^ P.int_bits) ≡ false =
        ap (ltb 11) counted ∙ within xmodem tries few in
      round-look h fuel (vars xmodem_crc small n tx err false) (vars xmodem small n nak tries false)
        s soon
        (ap (λ (t : ℕ). fallback (vars xmodem_crc small n tx t false)) counted
          ∙ fallback-downgraded small n tx tries more)
      ∙ sym (
          round-look h fuel (vars xmodem small n nak err false)
            (vars xmodem small n nak tries false) s soon
            (ap (λ (t : ℕ). fallback (vars xmodem small n nak t false)) counted
              ∙ fallback-vars xmodem small n nak tries few))
