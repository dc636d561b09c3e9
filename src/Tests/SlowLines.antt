-- ===== src/Tests/SlowLines.antt =====
-- Receptions on a line that pauses.
use libmodem.Modem.{soh, nak, ack, eot, ascii_c, cpmeof, modem_no_errors, xmodem, xmodem_crc}
use libmodem.Prelude.{ℕ, ◌≡◌, ◌≤◌, refl, inl, false, List, [], ◌∷◌, ◌++◌, arith, replicate}
use libmodem.Tests.Loopback.{
  Wire, wire, loopback, loopback-IsLine, list_reader, list_reader-IsReader,
}
use libmodem.Tests.Receptions.{list_writer, list_writer-IsWriter}
use libmodem.Tests.SlowLoopback.{slow, slow_loopback, slow-IsLine, slow-Pauses}
use libmodem.Xmodem.Buffer.{at}
use libmodem.Xmodem.Crossing.{Crosses, final}
use libmodem.Xmodem.FallbackRoundTrip.{fallback_round_trip, calls}
use libmodem.Xmodem.Frame.{checked, framed, trailer, block_of, length-block_of}
use libmodem.Xmodem.Rx.{xmodem_rx}
use libmodem.Xmodem.Rx.Course.{packet}
use libmodem.Xmodem.Rx.Transcript.{Transcript, finished, downgrade, paused, stray, cut_short, taken}
use libmodem.Xmodem.Rx.Transcript.Lines.{good_end, silence}
use libmodem.Xmodem.Rx.Transcript.Transfer.{xmodem_rx-Transcript}
use libmodem.Xmodem.Session.{Session, ok}
use libmodem.Xmodem.Tx.{xmodem_tx}

abbrev file : List ℕ
file = 0x68 ∷ 0x69 ∷ []

abbrev block : List ℕ
block = block_of 128 file

-- Three pauses, a stray character and the start of a packet, the rest of it, and the packet once
-- more.
abbrev cut : List (List ℕ)
cut =
    []
    ∷ []
    ∷ (7 ∷ soh ∷ 1 ∷ 254 ∷ 0x68 ∷ [])
    ∷ (9 ∷ 9 ∷ [])
    ∷ (packet xmodem 1 254 block (trailer 32 xmodem block) ++ (eot ∷ 5 ∷ []))
    ∷ []

abbrev answered : List ℕ
answered = ascii_c ∷ ascii_c ∷ ascii_c ∷ nak ∷ ack ∷ []

a_reception :
    Transcript 32 3 (good_end (5 ∷ []) []) xmodem_crc 1 0 ascii_c [] cut answered (block ++ [])
a_reception =
    paused (omega arith)
      (paused (omega arith)
        (paused (omega arith)
          (downgrade refl (omega arith) (omega arith) (
            stray 7 (omega arith) (omega arith, omega arith, omega arith)
              (cut_short false (1 ∷ 254 ∷ 0x68 ∷ []) (9 ∷ 9 ∷ []) (omega arith) (omega arith)
                (omega arith)
                (taken false 1 254 block (omega arith) (length-block_of 128 file) (inl refl)
                  (finished (omega arith) refl refl refl refl refl) refl refl refl)
                refl refl refl)
              refl))
          refl refl refl)
        refl refl refl)
      refl refl refl

xmodem_rx-Transcript_example :
    (s' : Session slow_loopback (List ℕ)) × (xmodem_rx 1 list_writer xmodem_crc 9
        (at slow_loopback (replicate 133 0) [] (slow [] cut []))
      ≡ ok modem_no_errors s')
    × (s'.port.arriving ≡ 5 ∷ [])
    × (s'.port.portions ≡ [])
    × (s'.port.sent ≡ [] ++ (ascii_c ∷ (answered ++ ack ∷ [])))
    × (s'.chan ≡ [] ++ (block ++ []))
xmodem_rx-Transcript_example =
    xmodem_rx-Transcript slow-IsLine slow-Pauses list_writer-IsWriter xmodem_crc 9 3
      (good_end (5 ∷ []) []) [] answered (block ++ []) (replicate 133 0) cut [] (slow [] cut [])
      (omega arith) (omega arith) a_reception refl refl (omega arith) (omega arith) tt

abbrev sent : List ℕ
sent = framed 32 xmodem 1 file

abbrev crossed : List ℕ
crossed = soh ∷ 1 ∷ 254 ∷ (checked 32 xmodem file ++ ([] ++ eot ∷ []))

a_crossing : Crosses 32 xmodem xmodem 1 5 file (ack ∷ []) sent crossed
a_crossing = final 1 254 [] (omega arith) (omega arith) (inl refl) tt (omega arith) refl refl refl

-- The transmitter hears the last request for XMODEM-CRC, then one for XMODEM.
abbrev from_receiver : Wire
from_receiver = wire ((ascii_c ∷ []) ++ (nak ∷ ((ack ∷ []) ++ ([] ++ (ack ∷ []))))) []

fallback_round_trip_example :
    (s : Session loopback (List ℕ)) × (t : Session slow_loopback (List ℕ)) × (pad : ℕ) × (xmodem_tx
        1 list_reader xmodem 8
        (at loopback (replicate 132 0) file from_receiver)
      ≡ ok modem_no_errors s)
    × (xmodem_rx 1 list_writer xmodem_crc 8
          (at slow_loopback (replicate 133 0) [] (slow [] (silence 1 (crossed ++ [])) []))
        ≡ ok modem_no_errors t)
    × (s.port.sent ≡ [] ++ (sent ++ eot ∷ []))
    × (t.port.sent ≡ [] ++ ((calls 1 ++ ack ∷ []) ++ ack ∷ []))
    × (pad ≤ 1024)
    × (t.chan ≡ [] ++ (file ++ replicate pad cpmeof))
fallback_round_trip_example =
    fallback_round_trip loopback-IsLine slow-IsLine slow-Pauses list_reader-IsReader
      list_writer-IsWriter 8 1 (ascii_c ∷ []) (ack ∷ []) [] sent crossed (replicate 132 0)
      (replicate 133 0) file [] from_receiver (slow [] (silence 1 (crossed ++ [])) []) (omega arith)
      (omega arith) (omega arith) (omega arith) (omega arith) (omega arith) (omega arith) a_crossing
      (omega arith, tt) tt refl refl refl (omega arith) (omega arith) (omega arith) tt
