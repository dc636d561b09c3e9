-- ===== src/Xmodem/NoisyRoundTrip.antt =====
-- `xmodem_tx` and `xmodem_rx` of src/xmodem.c at the two ends of a line that damages packets and
-- puts in characters.
use libmodem.Modem.{eot, ack, can, cpmeof, InputChannel, OutputChannel, modem_no_errors, XferMode}
use libmodem.Prelude.{
  ℕ, suc, ◌+◌, ◌^◌, ◌≤◌, ◌<◌, ◌≡◌, ◌≢◌, false, List, [], ◌∷◌, ◌++◌, All, length, replicate, arith,
  length-append, length-replicate,
}
use libmodem.Serial.Primitives.{Serprim, Handle}
use libmodem.Xmodem.Agreement.{large}
use libmodem.Xmodem.Buffer.{at}
use libmodem.Xmodem.Crossing.{Crosses}
use libmodem.Xmodem.Crossing.Courses.{Crosses-Sends, Crosses-Receives}
use libmodem.Xmodem.Frame.{size_of, trailer_size}
use libmodem.Xmodem.Line.{IsLine}
use libmodem.Xmodem.Rx.{xmodem_rx}
use libmodem.Xmodem.Rx.Packet.{IsWriter}
use libmodem.Xmodem.Rx.Transfer.{xmodem_rx-Receives}
use libmodem.Xmodem.Session.{Session, ok}
use libmodem.Xmodem.Tx.{xmodem_tx}
use libmodem.Xmodem.Tx.Fill.{IsReader}
use libmodem.Xmodem.Tx.Phases.{request}
use libmodem.Xmodem.Tx.Transfer.{xmodem_tx-Sends}

-- Two platforms with an `unsigned int` of 16 bits or more, whose lines work, a channel that hands
-- out a file and may be asked for it, one that stores what it is given and has room for 1024 bytes
-- more than the file, and buffers as large as the mode's packet. The way to the receiver may change
-- one of a packet's two numbers, may damage data and check bytes (a burst within two neighbouring
-- bytes where the packet has a CRC, one byte where it has a checksum), and may put in characters
-- that start nothing, no more in a row than the receiver's patience. The way back may put
-- characters in front of the request and, if they are neither ACK nor CAN, in front of the last
-- ACK. Then with fuel for every character that the transmitter waits through and every answer,
-- `xmodem_tx` and `xmodem_rx` both return no error, the transmitter has sent the packets, each once
-- more for each damage, and the EOTs, the receiver has sent its answers, and it has stored the file
-- with at most 1024 bytes of CPMEOF behind it.
pub noisy_round_trip :
    {P Q : Serprim} {h h' : Handle} {C D : Type 0} {source : OutputChannel C}
    {sink : InputChannel D} (L : IsLine P h) (M : IsLine Q h') (R : IsReader source)
    (W : IsWriter sink) (f : XferMode) (fuel : ℕ)
    (noise answers deaf out inc buffer buffer' : List ℕ) (c : C) (d : D) (p : P.Port) (q : Q.Port)
    → 16 ≤ P.int_bits
    → 16 ≤ Q.int_bits
    → 1024 < 2 ^ Q.size_bits
    → 3 + size_of f + trailer_size f ≤ length buffer
    → 3 + size_of f + trailer_size f ≤ length buffer'
    → R.Serves 0 c
    → Crosses P.int_bits f f 1 0 (R.file c) answers out inc
    → All (λ x. x ≢ request f) noise
    → All (λ x. (x ≢ ack) × (x ≢ can)) deaf
    → L.incoming p ≡ noise ++ (request f ∷ (answers ++ (deaf ++ (ack ∷ []))))
    → M.incoming q ≡ inc ++ replicate (length deaf) eot
    → length noise < fuel
    → length answers < fuel
    → length deaf < fuel
    → W.HasRoom (length (R.file c) + 1024) d
    → (s : Session P C) × (t : Session Q D) × (pad : ℕ) × (xmodem_tx h source f fuel
          (at P buffer c p)
        ≡ ok modem_no_errors s)
      × (xmodem_rx h' sink f fuel (at Q buffer' d q) ≡ ok modem_no_errors t)
      × (L.outgoing s.port ≡ L.outgoing p ++ (out ++ replicate (suc (length deaf)) eot))
      × (M.outgoing t.port ≡ M.outgoing q ++ (request f ∷ (answers ++ ack ∷ [])))
      × (pad ≤ 1024)
      × (W.stored t.chan ≡ W.stored d ++ (R.file c ++ replicate pad cpmeof))
noisy_round_trip {P} {Q} L M R W f fuel noise answers deaf out inc buffer buffer' c d p q wide wide'
      wide'' room room' ready crosses noisy deafs there here enough enough' enough'' roomy =
    let (s, transmits, in1, out1) =
      xmodem_tx-Sends L R f fuel noise answers deaf [] out buffer c p ready (Crosses-Sends crosses)
        noisy deafs there room enough (omega arith) enough'' in
    let (pad, small, course) =
      Crosses-Receives P.int_bits Q.int_bits f false wide wide' crosses (large f) in
    let (t, receives, in2, out2, kept) =
      xmodem_rx-Receives M W f fuel inc answers (R.file c ++ replicate pad cpmeof)
        (replicate (length deaf) eot) buffer' d q wide' wide'' course here room' enough'
        (W.fewer _ _ d
          (omega (
            arith,
            small,
            length-append {0} (R.file c) (replicate pad cpmeof),
            length-replicate {0} pad cpmeof,
          ))
          roomy) in
    (s, t, pad, transmits, receives, out1, out2, small, kept)
