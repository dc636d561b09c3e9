-- ===== src/Xmodem/Tx/Phases.antt =====
-- The waits of `xmodem_tx` before the first packet and behind the last, on a line that works.
use libmodem.Modem.{
  eot, ack, nak, can, ascii_c, modem_no_errors, XferMode, xmodem, xmodem_crc, xmodem_1k, is_xmodem,
  is_xmodem_1k, is_xmodem_crc, serial_to_modem_error,
}
use libmodem.Prelude.{
  ℕ, zero, suc, ◌+◌, ◌-◌, ◌%◌, ◌^◌, ◌<◌, ◌≡◌, ◌≢◌, refl, ap, ◌∙◌, ◌&&◌, ◌||◌, true, false, List, [],
  ◌∷◌, ◌++◌, All, length, ◌==◌, if◌then◌else◌, replicate, arith, append_assoc,
}
use libmodem.Serial.Primitives.{Serprim, Handle}
use libmodem.Xmodem.Line.{IsLine, snd_ok, rcv_ok, timed_rcv_ok}
use libmodem.Xmodem.Session.{Session, ok, to_unsigned, to_signed}
use libmodem.Xmodem.Tx.{eot_loop}
use libmodem.Xmodem.Wait.{ready_loop}

pub ne_test : (a b : ℕ) → a ≢ b → (a == b) ≡ false
ne_test a b h = ground arith

-- The character by which a receiver asks for a mode.
abbrev pub request : XferMode → ℕ
request f = if is_xmodem f then nak else ascii_c

pub is_requested : (f : XferMode) (code : ℕ) → code ≡ request f → (code == request f) ≡ true
is_requested f code e = ground arith

-- The two tests of `wait_for_rx_ready` ask for the character of the mode.
pub choose :
    {A : Type 0} (f : XferMode) (code : ℕ) (found missed : A)
    → (if (is_xmodem_1k f || is_xmodem_crc f) && (code == ascii_c)
        then found
        else if is_xmodem f && (code == nak)
        then found
        else missed)
      ≡ (if code == request f then found else missed)
choose xmodem code found missed = refl
choose xmodem_crc code found missed = refl
choose xmodem_1k code found missed = refl

module _ {P : Serprim} {h : Handle} {C : Type 0} (L : IsLine P h) where
  -- The end of transmission is repeated until a sign comes that is an ACK.
  pub eot_lem :
      (fuel : ℕ) (deaf inc : List ℕ) (code : ℕ) (s : Session P C)
      → All (λ x. (x ≢ ack) × (x ≢ can)) deaf
      → length deaf < fuel
      → L.incoming s.port ≡ deaf ++ (ack ∷ inc)
      → (s' : Session P C) × (eot_loop h fuel code s ≡ ok modem_no_errors s')
        × (L.incoming s'.port ≡ inc)
        × (L.outgoing s'.port ≡ L.outgoing s.port ++ replicate (suc (length deaf)) eot)
  unfolding eot_loop
  eot_lem zero deaf inc code s codes enough arrives = absurd (omega arith)
  eot_lem (suc fuel) [] inc code s codes enough arrives =
      let (p1, sent, in1, out1, quiet1) = snd_ok L (eot ∷ []) s in
      let (p2, got, in2, out2, quiet2) =
        rcv_ok L (ack ∷ []) inc 1 60 (record s { port = p1 }) (in1 ∙ arrives) refl in
      (record s { port = p2 }, rw (sent, got) refl, in2, out2 ∙ out1)
  eot_lem (suc fuel) (x ∷ deaf) inc code s (ne, codes) enough arrives =
      let (p1, sent, in1, out1, quiet1) = snd_ok L (eot ∷ []) s in
      let (p2, got, in2, out2, quiet2) =
        rcv_ok L (x ∷ []) (deaf ++ (ack ∷ inc)) 1 60 (record s { port = p1 }) (in1 ∙ arrives)
          refl in
      let (s', loops, in', out') =
        eot_lem fuel deaf inc x (record s { port = p2 }) codes (omega arith) in2 in
      (
        s',
        rw (sent, got, ne_test x ack ne.0, ne_test x can ne.1) loops,
        in',
        out'
            ∙ ap (λ t. t ++ replicate (suc (length deaf)) eot) (out2 ∙ out1)
            ∙ append_assoc (L.outgoing s.port) (eot ∷ []) (replicate (suc (length deaf)) eot),
      )

  -- Other characters are passed over until the receiver asks for the mode.
  pub ready_lem :
      (f : XferMode) (fuel : ℕ) (noise inc : List ℕ) (elapsed code : ℕ) (s : Session P C)
      → All (λ x. x ≢ request f) noise
      → length noise < fuel
      → L.incoming s.port ≡ noise ++ (request f ∷ inc)
      → (p' : P.Port) × (ready_loop h f fuel elapsed code s
          ≡ ok modem_no_errors (record s { port = p' }))
        × (L.incoming p' ≡ inc)
        × (L.outgoing p' ≡ L.outgoing s.port)
  unfolding ready_loop serial_to_modem_error
  ready_lem f zero noise inc elapsed code s codes enough arrives = absurd (omega arith)
  ready_lem f (suc fuel) [] inc elapsed code s codes enough arrives =
      let w = P.int_bits in
      let timeout = to_signed w ((60 + 2 ^ w - elapsed) % 2 ^ w) in
      let (p1, t, got, in1, out1, quiet1) =
        timed_rcv_ok L timeout (request f ∷ []) inc 1 s arrives refl in
      (p1, rw (got, choose f (request f), is_requested f (request f) refl) refl, in1, out1)
  ready_lem f (suc fuel) (x ∷ noise) inc elapsed code s (ne, codes) enough arrives =
      let w = P.int_bits in
      let timeout = to_signed w ((60 + 2 ^ w - elapsed) % 2 ^ w) in
      let (p1, t, got, in1, out1, quiet1) =
        timed_rcv_ok L timeout (x ∷ []) (noise ++ (request f ∷ inc)) 1 s arrives refl in
      let (p2, loops, in2, out2) =
        ready_lem f fuel noise inc ((elapsed + to_unsigned P.int_bits t) % 2 ^ P.int_bits) x
          (record s { port = p1 }) codes (omega arith) in1 in
      (p2, rw (got, choose f x, ne_test x (request f) ne) loops, in2, out2 ∙ out1)
