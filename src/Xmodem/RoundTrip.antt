-- ===== src/Xmodem/RoundTrip.antt =====
-- `xmodem_tx` and `xmodem_rx` of src/xmodem.c at the two ends of a line that loses nothing.
use libmodem.Modem.{eot, ack, cpmeof, InputChannel, OutputChannel, modem_no_errors, XferMode}
use libmodem.Prelude.{
  ℕ, ◌+◌, ◌^◌, ◌≤◌, ◌<◌, ◌≡◌, sym, ◌∙◌, false, List, [], ◌∷◌, ◌++◌, length, replicate, arith,
  append-nil, length-append, length-replicate,
}
use libmodem.Serial.Primitives.{Serprim, Handle}
use libmodem.Xmodem.Buffer.{at}
use libmodem.Xmodem.Frame.{size_of, trailer_size}
use libmodem.Xmodem.Line.{IsLine}
use libmodem.Xmodem.Rx.{xmodem_rx}
use libmodem.Xmodem.Rx.Packet.{IsWriter}
use libmodem.Xmodem.Rx.Transfer.{xmodem_rx-Receives}
use libmodem.Xmodem.Session.{Session, ok}
use libmodem.Xmodem.Tx.{xmodem_tx}
use libmodem.Xmodem.Tx.Fill.{IsReader}
use libmodem.Xmodem.Tx.Packets.{Sends}
use libmodem.Xmodem.Agreement.{large, Sends-Receives, answers_by_acks, Sends-width}
use libmodem.Xmodem.Tx.Phases.{request}
use libmodem.Xmodem.Tx.Transfer.{xmodem_tx-Sends}

-- Two platforms with an `unsigned int` of 16 bits or more, whose lines work, a channel that hands
-- out a file and may be asked for it, one that stores what it is given and has room for 1024 bytes
-- more than the file, and buffers as large as the mode's packet: if what arrives at each end is
-- what the other end sends for this file, then with fuel for every packet `xmodem_tx` and
-- `xmodem_rx` both return no error, each has sent just that, and the receiver has stored the file
-- with at most 1024 bytes of CPMEOF behind it.
pub round_trip :
    {P Q : Serprim} {h h' : Handle} {C D : Type 0} {source : OutputChannel C}
    {sink : InputChannel D} (L : IsLine P h) (M : IsLine Q h') (R : IsReader source)
    (W : IsWriter sink) (f : XferMode) (fuel m : ℕ) (out buffer buffer' : List ℕ) (c : C) (d : D)
    (p : P.Port) (q : Q.Port)
    → 16 ≤ P.int_bits
    → 16 ≤ Q.int_bits
    → 1024 < 2 ^ Q.size_bits
    → 3 + size_of f + trailer_size f ≤ length buffer
    → 3 + size_of f + trailer_size f ≤ length buffer'
    → R.Serves 0 c
    → Sends P.int_bits f 1 (R.file c) (replicate m ack) out
    → L.incoming p ≡ request f ∷ (replicate m ack ++ ack ∷ [])
    → M.incoming q ≡ out ++ eot ∷ []
    → m < fuel
    → W.HasRoom (length (R.file c) + 1024) d
    → (s : Session P C) × (t : Session Q D) × (pad : ℕ) × (xmodem_tx h source f fuel
          (at P buffer c p)
        ≡ ok modem_no_errors s)
      × (xmodem_rx h' sink f fuel (at Q buffer' d q) ≡ ok modem_no_errors t)
      × (L.outgoing s.port ≡ L.outgoing p ++ (out ++ eot ∷ []))
      × (M.outgoing t.port ≡ M.outgoing q ++ (request f ∷ (replicate m ack ++ ack ∷ [])))
      × (pad ≤ 1024)
      × (W.stored t.chan ≡ W.stored d ++ (R.file c ++ replicate pad cpmeof))
round_trip {P} {Q} L M R W f fuel m out buffer buffer' c d p q wide wide' wide'' room room' ready
      sends there here enough roomy =
    let count = length-replicate {0} m ack in
    let (s, transmits, in1, out1) =
      xmodem_tx-Sends L R f fuel [] (replicate m ack) [] [] out buffer c p ready sends tt tt there
        room (omega arith) (omega (arith, count)) (omega arith) in
    let (pad, small, course) =
      Sends-Receives f false (Sends-width P.int_bits Q.int_bits wide wide' sends) (large f)
        (answers_by_acks m) in
    let (t, receives, in2, out2, kept) =
      xmodem_rx-Receives M W f fuel (out ++ eot ∷ []) (replicate m ack)
        (R.file c ++ replicate pad cpmeof) [] buffer' d q wide' wide'' course
        (here ∙ sym (append-nil _)) room' (omega (arith, count))
        (W.fewer _ _ d
          (omega (
            arith,
            small,
            length-append {0} (R.file c) (replicate pad cpmeof),
            length-replicate {0} pad cpmeof,
          ))
          roomy) in
    (s, t, pad, transmits, receives, out1, out2, small, kept)
