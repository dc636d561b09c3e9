-- ===== src/Xmodem/Rx/Transfer.antt =====
-- A whole reception of `xmodem_rx` on a line that works.
use libmodem.Modem.{
  nul, ack, InputChannel, modem_no_errors, XferMode, xmodem, xmodem_crc, xmodem_1k,
}
use libmodem.Prelude.{
  ℕ, zero, suc, ◌+◌, ◌-◌, ◌^◌, ◌≤◌, ◌<◌, ◌≡◌, refl, ap, ◌∙◌, false, List, [], ◌∷◌, ◌++◌, length,
  arith,
}
use libmodem.Serial.Primitives.{Serprim, Handle}
use libmodem.Xmodem.Buffer.{at}
use libmodem.Xmodem.Frame.{size_of, trailer_size}
use libmodem.Xmodem.Line.{IsLine, snd_ok}
use libmodem.Xmodem.Rx.{wait_rounds, rx_loop, rx_start, xmodem_rx}
use libmodem.Xmodem.Rx.Counter.{wraps}
use libmodem.Xmodem.Rx.Course.{Receives}
use libmodem.Xmodem.Rx.First.{vars, rx_start-vars}
use libmodem.Xmodem.Rx.Packet.{IsWriter}
use libmodem.Xmodem.Rx.Reception.{Ends, receives_lem, chain}
use libmodem.Xmodem.Rx.Rounds.{rx_loop-resume}
use libmodem.Xmodem.Session.{Session, ok}
use libmodem.Xmodem.Tx.Phases.{request}

pub rx_start-request : (w : ℕ) (f : XferMode) → (rx_start w f).tx_code ≡ request f
unfolding rx_start
rx_start-request w xmodem = refl
rx_start-request w xmodem_crc = refl
rx_start-request w xmodem_1k = refl

module _ {P : Serprim} {h : Handle} {C : Type 0} {channel : InputChannel C} (L : IsLine P h)
    (W : IsWriter channel) (wide : 16 ≤ P.int_bits) (wide' : 1024 < 2 ^ P.size_bits) where
  loop_lem :
      (f : XferMode) (fuel : ℕ) (inc answers held more buffer : List ℕ) (c : C) (p : P.Port)
      → Receives P.int_bits f 1 0 inc answers held
      → L.incoming p ≡ inc ++ more
      → 3 + size_of f + trailer_size f ≤ length buffer
      → length answers < fuel
      → W.HasRoom (length held) c
      → Ends L W wide wide'
          (rx_loop h channel fuel (rx_start P.int_bits f) (at P buffer c p))
          c
          p
          more
          answers
          held
  loop_lem f zero inc answers held more buffer c p course arrives room enough roomy =
      absurd (omega arith)
  loop_lem f (suc fuel) inc answers held more [] c p course arrives room enough roomy =
      absurd (omega arith)
  loop_lem f (suc fuel) inc answers held more (b ∷ rest) c p course arrives room enough roomy =
      let v = vars f false 1 (rx_start P.int_bits f).tx_code (2 ^ P.int_bits - 1) false in
      let (v', s', run, in1, out1, kept) =
        receives_lem L W wide wide' fuel wait_rounds false (rx_start P.int_bits f).tx_code
          (2 ^ P.int_bits - 1) nul rest more c p course (wraps P.int_bits wide) (omega arith)
          (omega arith) (omega arith) arrives roomy in
      (
        v',
        s',
        ap (λ t. rx_loop h channel (suc fuel) t (at P (b ∷ rest) c p)) (rx_start-vars P.int_bits f)
            ∙ rx_loop-resume {P = P} h channel fuel v b rest c p
            ∙ run,
        in1,
        out1,
        kept,
      )

-- On a line that works, with a channel that has room for the data of the course and stores what it
-- is given, a buffer as large as the mode's packet, an `unsigned int` of 16 bits or more and a
-- `size_t` that holds 1024: if what arrives is a course of the protocol from block 1 on, then with
-- fuel for every answer and the end `xmodem_rx` returns no error, has stored the data of the
-- course, has sent the request for the mode, the course's answers and an ACK, and has read nothing
-- further.
pub xmodem_rx-Receives :
    {P : Serprim} {h : Handle} {C : Type 0} {channel : InputChannel C} (L : IsLine P h)
    (W : IsWriter channel) (f : XferMode) (fuel : ℕ) (inc answers held more buffer : List ℕ) (c : C)
    (p : P.Port)
    → 16 ≤ P.int_bits
    → 1024 < 2 ^ P.size_bits
    → Receives P.int_bits f 1 0 inc answers held
    → L.incoming p ≡ inc ++ more
    → 3 + size_of f + trailer_size f ≤ length buffer
    → length answers < fuel
    → W.HasRoom (length held) c
    → (s' : Session P C) × (xmodem_rx h channel f fuel (at P buffer c p) ≡ ok modem_no_errors s')
      × (L.incoming s'.port ≡ more)
      × (L.outgoing s'.port ≡ L.outgoing p ++ (request f ∷ (answers ++ ack ∷ [])))
      × (W.stored s'.chan ≡ W.stored c ++ held)
unfolding xmodem_rx
xmodem_rx-Receives {P} {h} {channel} L W f fuel inc answers held more buffer c p wide wide' course
      arrives room enough roomy =
    let code : ℕ = (rx_start P.int_bits f).tx_code in
    let (p1, sent, in1, out1, quiet1) = snd_ok L (code ∷ []) (at P buffer c p) in
    let (v', s2, run, in2, out2, kept) =
      loop_lem L W wide wide' f fuel inc answers held more buffer c p1 course (in1 ∙ arrives) room
        enough roomy in
    let (p3, last, in3, out3, quiet3) = snd_ok L (ack ∷ []) s2 in
    let asked : L.outgoing p1 ≡ L.outgoing p ++ request f ∷ [] =
      out1 ∙ ap (λ (t : ℕ). L.outgoing p ++ t ∷ []) (rx_start-request P.int_bits f) in
    (
      record s2 { port = p3 },
      rw (sent, run, last) refl,
      in3 ∙ in2,
      chain (L.outgoing p) (request f ∷ []) (answers ++ ack ∷ [])
          (chain (L.outgoing p1) answers (ack ∷ []) out3 out2 refl) asked refl,
      kept,
    )
