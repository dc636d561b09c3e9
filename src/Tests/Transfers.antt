-- ===== src/Tests/Transfers.antt =====
-- Transfers over the loopback line.
use libmodem.Modem.{ack, nak, eot, ascii_c, modem_no_errors, xmodem}
use libmodem.Prelude.{ℕ, ◌≡◌, refl, List, [], ◌∷◌, ◌++◌, arith, replicate}
use libmodem.Tests.Loopback.{wire, loopback, loopback-IsLine, list_reader, list_reader-IsReader}
use libmodem.Xmodem.Buffer.{at}
use libmodem.Xmodem.Frame.{frame, block_of}
use libmodem.Xmodem.Session.{Session, ok}
use libmodem.Xmodem.Tx.{xmodem_tx}
use libmodem.Xmodem.Tx.Packets.{Sends, final, repeated}
use libmodem.Xmodem.Tx.Transfer.{xmodem_tx-Sends}

abbrev file : List ℕ
file = 0x68 ∷ 0x69 ∷ []

abbrev packet : List ℕ
packet = frame 32 xmodem 1 (block_of 128 file)

abbrev buffer : List ℕ
buffer = replicate 132 0

-- The receiver asks twice for the one packet, and hears the second of two EOTs.
course : Sends 32 xmodem 1 file (nak ∷ ack ∷ []) (packet ++ packet)
course = repeated (final (omega arith) refl refl) refl refl

xmodem_tx-Sends_example :
    (s' : Session loopback (List ℕ)) × (xmodem_tx 1 list_reader xmodem 5
        (at loopback buffer file (wire (ascii_c ∷ nak ∷ nak ∷ ack ∷ nak ∷ ack ∷ 7 ∷ []) []))
      ≡ ok modem_no_errors s')
    × (s'.port.arriving ≡ 7 ∷ [])
    × (s'.port.sent ≡ [] ++ ((packet ++ packet) ++ replicate 2 eot))
xmodem_tx-Sends_example =
    xmodem_tx-Sends loopback-IsLine list_reader-IsReader xmodem 5 (ascii_c ∷ []) (nak ∷ ack ∷ [])
      (nak ∷ []) (7 ∷ []) (packet ++ packet) buffer file
      (wire (ascii_c ∷ nak ∷ nak ∷ ack ∷ nak ∷ ack ∷ 7 ∷ []) []) (omega arith) course (omega arith)
      (omega arith) refl (omega arith) (omega arith) (omega arith) (omega arith)
