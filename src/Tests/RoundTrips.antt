-- ===== src/Tests/RoundTrips.antt =====
-- A file over two loopback lines, each of which brings what the other end sends.
use libmodem.Modem.{nak, ack, eot, cpmeof, modem_no_errors, xmodem}
use libmodem.Modem.Buffers.{BufReader, BufWriter, read_from_buf, write_to_buf}
use libmodem.Modem.Buffers.Transfer.{buffers_round_trip}
use libmodem.Prelude.{
  ℕ, sym, take, length-replicate, ◌≡◌, ◌≤◌, refl, List, [], ◌∷◌, ◌++◌, arith, replicate,
}
use libmodem.Tests.Loopback.{
  Wire, wire, loopback, loopback-IsLine, list_reader, list_reader-IsReader,
}
use libmodem.Tests.Receptions.{list_writer, list_writer-IsWriter}
use libmodem.Xmodem.Buffer.{at}
use libmodem.Xmodem.Frame.{frame, block_of}
use libmodem.Xmodem.RoundTrip.{round_trip}
use libmodem.Xmodem.Rx.{xmodem_rx}
use libmodem.Xmodem.Session.{Session, ok}
use libmodem.Xmodem.Tx.{xmodem_tx}
use libmodem.Xmodem.Tx.Packets.{final}

abbrev file : List ℕ
file = 0x68 ∷ 0x69 ∷ []

abbrev sent : List ℕ
sent = frame 32 xmodem 1 (block_of 128 file)

abbrev buffer : List ℕ
buffer = replicate 132 0

abbrev from_receiver : Wire
from_receiver = wire (nak ∷ (replicate 1 ack ++ ack ∷ [])) []

abbrev from_transmitter : Wire
from_transmitter = wire (sent ++ eot ∷ []) []

round_trip_example :
    (s t : Session loopback (List ℕ)) × (pad : ℕ) × (xmodem_tx 1 list_reader xmodem 2
        (at loopback buffer file from_receiver)
      ≡ ok modem_no_errors s)
    × (xmodem_rx 1 list_writer xmodem 2 (at loopback buffer [] from_transmitter)
        ≡ ok modem_no_errors t)
    × (s.port.sent ≡ [] ++ (sent ++ eot ∷ []))
    × (t.port.sent ≡ [] ++ (nak ∷ (replicate 1 ack ++ ack ∷ [])))
    × (pad ≤ 1024)
    × (t.chan ≡ [] ++ (file ++ replicate pad cpmeof))
round_trip_example =
    round_trip loopback-IsLine loopback-IsLine list_reader-IsReader list_writer-IsWriter xmodem 2 1
      sent buffer buffer file [] from_receiver from_transmitter (omega arith) (omega arith)
      (omega arith) (omega arith) (omega arith) (omega arith) (final (omega arith) refl refl) refl
      refl (omega arith) tt

-- The same from the second byte of one buffer on to behind the first byte of another.
abbrev reader : BufReader
reader = record { buf = 0x00 ∷ file; bufpos = 1; buflen = 3 }

abbrev writer : BufWriter
writer = record { buf = replicate 1100 0; bufpos = 1; buflen = 1100 }

buffers_round_trip_example :
    (s : Session loopback BufReader) × (t : Session loopback BufWriter) × (pad : ℕ) × (xmodem_tx 1
        (read_from_buf 32 64)
        xmodem
        2
        (at loopback buffer reader from_receiver)
      ≡ ok modem_no_errors s)
    × (xmodem_rx 1 (write_to_buf 32 64) xmodem 2 (at loopback buffer writer from_transmitter)
        ≡ ok modem_no_errors t)
    × (pad ≤ 1024)
    × (take t.chan.bufpos t.chan.buf ≡ 0 ∷ (file ++ replicate pad cpmeof))
buffers_round_trip_example =
    buffers_round_trip loopback-IsLine loopback-IsLine xmodem 2 1 sent buffer buffer reader writer
      from_receiver from_transmitter (omega arith) (omega arith) (omega arith) (omega arith)
      (omega arith) (omega arith) (omega arith, refl, omega arith)
      (omega arith, sym (length-replicate {0} {A = ℕ} 1100 0), omega arith) (omega arith)
      (final (omega arith) refl refl) refl refl (omega arith)
