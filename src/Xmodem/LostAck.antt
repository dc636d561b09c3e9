-- ===== src/Xmodem/LostAck.antt =====
-- `xmodem_tx` and `xmodem_rx` of src/xmodem.c at the ends of one line on which an ACK is damaged.
use libmodem.Modem.{
  ack, nak, can, InputChannel, OutputChannel, XferMode, xmodem, xmodem_crc, xmodem_1k, sent_can,
  packet_mismatch,
}
use libmodem.Prelude.{
  ℕ, ◌+◌, ◌^◌, ◌≤◌, ◌<◌, ◌≡◌, refl, sym, ap, ◌∙◌, inl, inr, Bool, false, Bool-cases, List, [], ◌∷◌,
  ◌++◌, length, ltb, arith, length-append, append-nil,
}
use libmodem.Serial.Primitives.{Serprim, Handle}
use libmodem.Xmodem.Agreement.{large, settle-packet_mode}
use libmodem.Xmodem.Buffer.{at}
use libmodem.Xmodem.Crossing.Courses.{arrives}
use libmodem.Xmodem.Frame.{
  size_of, trailer_size, trailer, frame, settle, next_of, framed, block_of, length-block_of,
  length-trailer,
}
use libmodem.Xmodem.Line.{IsLine}
use libmodem.Xmodem.Pauses.{Ending, Pauses}
use libmodem.Xmodem.Rx.{xmodem_rx}
use libmodem.Xmodem.Rx.Course.{packet_mode}
use libmodem.Xmodem.Rx.Packet.{IsWriter}
use libmodem.Xmodem.Rx.Transcript.{Transcript}
use libmodem.Xmodem.Rx.Transcript.Transfer.{xmodem_rx-Transcript}
use libmodem.Xmodem.Session.{Session, ok}
use libmodem.Xmodem.Tx.{xmodem_tx}
use libmodem.Xmodem.Tx.Dialogue.{Dialogue, Talks}
use libmodem.Xmodem.Tx.Dialogue.Transfer.{xmodem_tx-Dialogue}
use libmodem.Xmodem.Tx.Fill.{IsReader}
use libmodem.Xmodem.Tx.Phases.{request}

settle-settle : (f : XferMode) (file : List ℕ) → settle (settle f file) file ≡ settle f file
settle-settle xmodem file = refl
settle-settle xmodem_crc file = refl
settle-settle xmodem_1k file = elim (Bool-cases (ltb (length file) 1024)) [
  | inl e ↦ rw e refl
  | inr e ↦ rw e refl
]

-- The first packet, and the same again.
abbrev pub twice : ℕ → XferMode → List ℕ → List ℕ
twice w f file = framed w f 1 file ++ framed w f 1 file

abbrev cancelled : Ending
cancelled = record { outcome = sent_can; unread = []; behind = [] }

abbrev mismatched : Ending
mismatched = record { outcome = packet_mismatch; unread = []; behind = [] }

-- For the transmitter the receiver asks for the packet again and then breaks off.
resent :
    (w : ℕ) (f : XferMode) (file : List ℕ)
    → Dialogue w cancelled f file (request f ∷ nak ∷ can ∷ []) [] (twice w f file)
resent w f file =
    Dialogue.requested
      (Talks.asked_again (Talks.broken_off can (omega arith, omega arith) refl refl refl refl) refl
        (ap (λ t. framed w f 1 file ++ (frame w t 1 (block_of (size_of t) file)))
          (sym (settle-settle f file))))
      refl

-- For the receiver a packet comes that is out of step.
repeated :
    (v w : ℕ) (f : XferMode) (file : List ℕ)
    → 16 ≤ v
    → 16 ≤ w
    → Transcript w 0 mismatched f 1 0
        (request f)
        (twice v f file)
        []
        (ack ∷ can ∷ [])
        (next_of f file)
repeated v w f file wide wide' =
    let small : Bool = ltb (length file) 1024 in
    let g = packet_mode f small in
    let mode : settle f file ≡ g =
      ap (λ t. settle t file) (large f) ∙ settle-packet_mode f false file in
    let block = block_of (size_of g) file in
    let body = block ++ trailer w g block in
    Transcript.taken small 1 254 block (omega arith) (length-block_of (size_of g) file) (inl refl)
      (Transcript.out_of_step small 1 254 body (omega arith)
        (omega (
          arith,
          length-append {0} block (trailer w g block),
          length-block_of (size_of g) file,
          length-trailer w g block,
        ))
        (omega arith) (omega arith) refl
        (sym (append-nil (framed v f 1 file)) ∙ arrives v w file [] wide wide' 1 254 mode) refl refl
        refl)
      (arrives v w file (framed v f 1 file) wide wide' 1 254 mode) refl
      (ap (λ t. block_of (size_of t) file) mode ∙ sym (append-nil block))

-- Two platforms with an `unsigned int` of 16 bits or more, the receiver's `size_t` holding 1024,
-- whose lines work, with reads that time out where they pause, a channel that hands out a file and
-- may be asked for it, one that stores what it is given and has room for a packet, and buffers as
-- large as the mode's packet. If the transmitter gets what the receiver sends but for the first
-- ACK, which comes as a NAK, and the receiver gets what the transmitter sends, then with fuel for
-- these characters the receiver takes the packet that is sent again for one that is out of step: it
-- cancels and returns a packet mismatch, with the first block stored once, and the transmitter
-- returns a cancellation.
pub lost_ack :
    {P Q : Serprim} {h h' : Handle} {C D : Type 0} {source : OutputChannel C}
    {sink : InputChannel D} (L : IsLine P h) (M : IsLine Q h') (N : Pauses L) (O : Pauses M)
    (R : IsReader source) (W : IsWriter sink) (f : XferMode) (fuel : ℕ) (buffer buffer' : List ℕ)
    (c : C) (d : D) (p : P.Port) (q : Q.Port)
    → 16 ≤ P.int_bits
    → 16 ≤ Q.int_bits
    → 1024 < 2 ^ Q.size_bits
    → 3 + size_of f + trailer_size f ≤ length buffer
    → 3 + size_of f + trailer_size f ≤ length buffer'
    → R.Serves 0 c
    → L.incoming p ≡ request f ∷ nak ∷ can ∷ []
    → L.later p ≡ []
    → M.incoming q ≡ twice P.int_bits f (R.file c)
    → M.later q ≡ []
    → 3 < fuel
    → W.HasRoom (length (next_of f (R.file c))) d
    → (s : Session P C) × (t : Session Q D) × (xmodem_tx h source f fuel (at P buffer c p)
        ≡ ok sent_can s)
      × (xmodem_rx h' sink f fuel (at Q buffer' d q) ≡ ok packet_mismatch t)
      × (L.outgoing s.port ≡ L.outgoing p ++ twice P.int_bits f (R.file c))
      × (M.outgoing t.port ≡ M.outgoing q ++ (request f ∷ ack ∷ can ∷ []))
      × (W.stored t.chan ≡ W.stored d ++ next_of f (R.file c))
lost_ack {P} {Q} L M N O R W f fuel buffer buffer' c d p q wide wide' wide'' room room' ready there
      none_behind here none_behind' enough roomy =
    let file = R.file c in
    let (s, transmits, in1, quiet1, out1) =
      xmodem_tx-Dialogue L N R f fuel cancelled (request f ∷ nak ∷ can ∷ [])
        (twice P.int_bits f file) buffer [] c p ready (resent P.int_bits f file) there none_behind
        room (omega arith) in
    let (t, receives, in2, quiet2, out2, kept) =
      xmodem_rx-Transcript M O W f fuel 0 mismatched (twice P.int_bits f file) (ack ∷ can ∷ [])
        (next_of f file) buffer' [] d q wide' wide''
        (repeated P.int_bits Q.int_bits f file wide wide') here none_behind' room' (omega arith)
        roomy in
    (s, t, transmits, receives, out1, out2, kept)
