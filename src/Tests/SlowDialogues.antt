-- ===== src/Tests/SlowDialogues.antt =====
-- Transmissions on a line that pauses.
use libmodem.Modem.{nak, ack, eot, modem_timeout, xmodem}
use libmodem.Prelude.{◌≡◌, refl, ℕ, List, [], ◌∷◌, ◌++◌, arith, replicate}
use libmodem.Tests.Loopback.{list_reader, list_reader-IsReader}
use libmodem.Tests.SlowLoopback.{SlowWire, slow, slow_loopback, slow-IsLine, slow-Pauses}
use libmodem.Xmodem.Buffer.{at}
use libmodem.Xmodem.Frame.{framed}
use libmodem.Xmodem.Pauses.{Ending}
use libmodem.Xmodem.Session.{Session, ok}
use libmodem.Xmodem.Tx.{xmodem_tx}
use libmodem.Xmodem.Tx.Dialogue.{
  Dialogue, requested, not_meant, asked_again, last_taken, misheard, ignored,
}
use libmodem.Xmodem.Tx.Dialogue.Every.{xmodem_tx-always}
use libmodem.Xmodem.Tx.Dialogue.Transfer.{xmodem_tx-Dialogue}

abbrev file : List ℕ
file = 0x68 ∷ 0x69 ∷ []

-- A character that is no request, the request, a NAK and an ACK for the packet, and an answer to
-- the EOT that is neither ACK nor CAN; the next EOT gets none.
abbrev heard : List ℕ
heard = 7 ∷ nak ∷ nak ∷ ack ∷ 9 ∷ []

abbrev sent : List ℕ
sent = framed 32 xmodem 1 file ++ (framed 32 xmodem 1 file ++ (eot ∷ eot ∷ []))

abbrev timed_out : Ending
timed_out = record { outcome = modem_timeout; unread = ack ∷ []; behind = [] }

abbrev line : SlowWire
line = slow heard ((ack ∷ []) ∷ []) []

a_transmission : Dialogue 32 timed_out xmodem file heard ((ack ∷ []) ∷ []) sent
a_transmission =
    not_meant 7 (omega arith)
      (requested
        (asked_again
          (last_taken (omega arith)
            (misheard 9 (omega arith, omega arith) (ignored refl refl refl refl) refl refl) refl
            refl)
          refl refl)
        refl)
      refl

xmodem_tx-Dialogue_example :
    (s' : Session slow_loopback (List ℕ)) × (xmodem_tx 1 list_reader xmodem 6
        (at slow_loopback (replicate 132 0) file line)
      ≡ ok modem_timeout s')
    × (s'.port.arriving ≡ ack ∷ [])
    × (s'.port.portions ≡ [])
    × (s'.port.sent ≡ [] ++ sent)
xmodem_tx-Dialogue_example =
    xmodem_tx-Dialogue slow-IsLine slow-Pauses list_reader-IsReader xmodem 6 timed_out heard sent
      (replicate 132 0) ((ack ∷ []) ∷ []) file line (omega arith) a_transmission refl refl
      (omega arith) (omega arith)

xmodem_tx-always_example :
    (z : Ending) × (out : List ℕ) × (s' : Session slow_loopback (List ℕ)) × Dialogue 32 z xmodem
      file heard
      ((ack ∷ []) ∷ [])
      out
    × (xmodem_tx 1 list_reader xmodem 6 (at slow_loopback (replicate 132 0) file line)
        ≡ ok z.outcome s')
    × (s'.port.arriving ≡ z.unread)
    × (s'.port.portions ≡ z.behind)
    × (s'.port.sent ≡ [] ++ out)
xmodem_tx-always_example =
    xmodem_tx-always slow-IsLine slow-Pauses list_reader-IsReader xmodem 6 (ack ∷ [])
      (replicate 132 0) [] file line (omega arith) refl (omega arith) (omega arith)
