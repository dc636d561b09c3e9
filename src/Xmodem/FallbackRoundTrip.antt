-- ===== src/Xmodem/FallbackRoundTrip.antt =====
-- `xmodem_rx` of src/xmodem.c, asked for XMODEM-CRC, at the other end of a line from an `xmodem_tx`
-- that is asked for XMODEM.
use libmodem.Modem.{
  eot, ack, nak, can, ascii_c, cpmeof, InputChannel, OutputChannel, modem_no_errors, xmodem,
  xmodem_crc,
}
use libmodem.Prelude.{
  ℕ, suc, ◌+◌, ◌^◌, ◌≤◌, ◌<◌, ◌≡◌, ◌≢◌, refl, false, List, [], ◌∷◌, ◌++◌, All, length, replicate,
  arith, length-append, length-replicate,
}
use libmodem.Serial.Primitives.{Serprim, Handle}
use libmodem.Xmodem.Buffer.{at}
use libmodem.Xmodem.Crossing.{Crosses}
use libmodem.Xmodem.Crossing.Courses.{Crosses-Sends, Crosses-Receives}
use libmodem.Xmodem.Line.{IsLine}
use libmodem.Xmodem.Rx.{xmodem_rx}
use libmodem.Xmodem.Rx.Packet.{IsWriter}
use libmodem.Xmodem.Rx.Transcript.Lines.{good_end, silence, downgraded_course}
use libmodem.Xmodem.Pauses.{Pauses}
use libmodem.Xmodem.Rx.Transcript.Transfer.{xmodem_rx-Transcript}
use libmodem.Xmodem.Session.{Session, ok}
use libmodem.Xmodem.Tx.{xmodem_tx}
use libmodem.Xmodem.Tx.Fill.{IsReader}
use libmodem.Xmodem.Tx.Transfer.{xmodem_tx-Sends}

-- What a receiver sends that falls back to XMODEM.
abbrev pub calls : ℕ → List ℕ
calls j = ascii_c ∷ ascii_c ∷ ascii_c ∷ ascii_c ∷ nak ∷ replicate j nak

-- Two platforms with an `unsigned int` of 16 bits or more, the receiver's `size_t` holding 1024,
-- whose lines work, the receiver's with reads that time out where it pauses, a channel that hands
-- out a file and may be asked for it, one that stores what it is given and has room for 1024 bytes
-- more than the file, and buffers of at least 132 bytes and of at least 133. The transmitter is in
-- XMODEM mode and the receiver in XMODEM-CRC mode. The receiver's four requests for XMODEM-CRC, and
-- up to seven of those for XMODEM that follow, are in vain, and the next one is answered. If the
-- transmitter gets a NAK, after other characters, and then the receiver's answers, and an ACK,
-- before which there may be characters that are neither ACK nor CAN, and its packets come to the
-- receiver behind the pauses, damaged and with characters between them as far as the receiver is
-- patient, then with fuel for every character that the transmitter waits through and every answer
-- both return no error, each has sent what the protocol says, and the receiver has stored the file
-- with at most 1024 bytes of CPMEOF behind it.
pub fallback_round_trip :
    {P Q : Serprim} {h h' : Handle} {C D : Type 0} {source : OutputChannel C}
    {sink : InputChannel D} (L : IsLine P h) (M : IsLine Q h') (N : Pauses M) (R : IsReader source)
    (W : IsWriter sink) (fuel j : ℕ) (noise answers deaf out inc buffer buffer' : List ℕ) (c : C)
    (d : D) (p : P.Port) (q : Q.Port)
    → 16 ≤ P.int_bits
    → 16 ≤ Q.int_bits
    → 1024 < 2 ^ Q.size_bits
    → 132 ≤ length buffer
    → 133 ≤ length buffer'
    → j ≤ 7
    → R.Serves 0 c
    → Crosses P.int_bits xmodem xmodem 1 (4 + j) (R.file c) answers out inc
    → All (λ x. x ≢ nak) noise
    → All (λ x. (x ≢ ack) × (x ≢ can)) deaf
    → L.incoming p ≡ noise ++ (nak ∷ (answers ++ (deaf ++ (ack ∷ []))))
    → M.incoming q ≡ []
    → M.later q ≡ silence j (inc ++ replicate (length deaf) eot)
    → length noise < fuel
    → 5 + j + length answers < fuel
    → length deaf < fuel
    → W.HasRoom (length (R.file c) + 1024) d
    → (s : Session P C) × (t : Session Q D) × (pad : ℕ) × (xmodem_tx h source xmodem fuel
          (at P buffer c p)
        ≡ ok modem_no_errors s)
      × (xmodem_rx h' sink xmodem_crc fuel (at Q buffer' d q) ≡ ok modem_no_errors t)
      × (L.outgoing s.port ≡ L.outgoing p ++ (out ++ replicate (suc (length deaf)) eot))
      × (M.outgoing t.port ≡ M.outgoing q ++ ((calls j ++ answers) ++ ack ∷ []))
      × (pad ≤ 1024)
      × (W.stored t.chan ≡ W.stored d ++ (R.file c ++ replicate pad cpmeof))
fallback_round_trip {P} {Q} L M N R W fuel j noise answers deaf out inc buffer buffer' c d p q wide
      wide' wide'' room room' few ready crosses noisy deafs there here silent enough enough'
      enough'' roomy =
    let (s, transmits, in1, out1) =
      xmodem_tx-Sends L R xmodem fuel noise answers deaf [] out buffer c p ready
        (Crosses-Sends crosses) noisy deafs there room enough (omega arith) enough'' in
    let (pad, small, course) =
      Crosses-Receives P.int_bits Q.int_bits xmodem false wide wide' crosses refl in
    let held = R.file c ++ replicate pad cpmeof in
    let eots = replicate (length deaf) eot in
    let (t, receives, in2, quiet2, out2, kept) =
      xmodem_rx-Transcript M N W xmodem_crc fuel 0 (good_end eots []) []
        (ascii_c ∷ ascii_c ∷ ascii_c ∷ nak ∷ (replicate j nak ++ answers)) held buffer'
        (silence j (inc ++ eots)) d q wide' wide'' (downgraded_course j eots (omega arith) course)
        here silent room'
        (omega (arith, length-append {0} (replicate j nak) answers, length-replicate {0} j nak))
        (W.fewer _ _ d
          (omega (
            arith,
            small,
            length-append {0} (R.file c) (replicate pad cpmeof),
            length-replicate {0} pad cpmeof,
          ))
          roomy) in
    (s, t, pad, transmits, receives, out1, out2, small, kept)
