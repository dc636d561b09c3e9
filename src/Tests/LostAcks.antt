-- ===== src/Tests/LostAcks.antt =====
-- A transfer whose first ACK comes as a NAK.
use libmodem.Modem.{ack, nak, can, sent_can, packet_mismatch, xmodem}
use libmodem.Prelude.{ℕ, ◌≡◌, refl, List, [], ◌∷◌, ◌++◌, arith, replicate}
use libmodem.Tests.Loopback.{list_reader, list_reader-IsReader}
use libmodem.Tests.Receptions.{list_writer, list_writer-IsWriter}
use libmodem.Tests.SlowLoopback.{slow, slow_loopback, slow-IsLine, slow-Pauses}
use libmodem.Xmodem.Buffer.{at}
use libmodem.Xmodem.Frame.{next_of}
use libmodem.Xmodem.LostAck.{twice, lost_ack}
use libmodem.Xmodem.Rx.{xmodem_rx}
use libmodem.Xmodem.Session.{Session, ok}
use libmodem.Xmodem.Tx.{xmodem_tx}

abbrev file : List ℕ
file = 0x68 ∷ 0x69 ∷ []

lost_ack_example :
    (s : Session slow_loopback (List ℕ)) × (t : Session slow_loopback (List ℕ)) × (xmodem_tx 1
        list_reader xmodem 4
        (at slow_loopback (replicate 132 0) file (slow (nak ∷ nak ∷ can ∷ []) [] []))
      ≡ ok sent_can s)
    × (xmodem_rx 1 list_writer xmodem 4
          (at slow_loopback (replicate 132 0) [] (slow (twice 32 xmodem file) [] []))
        ≡ ok packet_mismatch t)
    × (s.port.sent ≡ [] ++ twice 32 xmodem file)
    × (t.port.sent ≡ [] ++ (nak ∷ ack ∷ can ∷ []))
    × (t.chan ≡ [] ++ next_of xmodem file)
lost_ack_example =
    lost_ack slow-IsLine slow-IsLine slow-Pauses slow-Pauses list_reader-IsReader
      list_writer-IsWriter xmodem 4 (replicate 132 0) (replicate 132 0) file []
      (slow (nak ∷ nak ∷ can ∷ []) [] []) (slow (twice 32 xmodem file) [] []) (omega arith)
      (omega arith) (omega arith) (omega arith) (omega arith) (omega arith) refl refl refl refl
      (omega arith) tt
