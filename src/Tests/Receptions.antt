-- ===== src/Tests/Receptions.antt =====
-- Receptions over the loopback line.
use libmodem.Crc.{generate_chksum}
use libmodem.Modem.{eot, ack, nak, InputChannel, modem_no_errors, xmodem}
use libmodem.Prelude.{false, ℕ, ◌≡◌, ◌≢◌, refl, ap, inl, List, [], ◌∷◌, ◌++◌, arith, replicate}
use libmodem.Prelude.Int.{pos}
use libmodem.Tests.Loopback.{wire, loopback, loopback-IsLine}
use libmodem.Xmodem.Buffer.{at}
use libmodem.Xmodem.Frame.{block_of, trailer}
use libmodem.Xmodem.Rx.{xmodem_rx}
use libmodem.Xmodem.Rx.Course.{packet, Receives, ended, noise, accepted, rejected}
use libmodem.Xmodem.Rx.Packet.{IsWriter}
use libmodem.Xmodem.Rx.Transfer.{xmodem_rx-Receives}
use libmodem.Xmodem.Session.{Session, ok, head_of}

-- A channel that appends what it is given to the list that is its state.
abbrev pub list_writer : InputChannel (List ℕ)
list_writer xs n eof stored = (pos n, stored ++ xs)

abbrev pub list_writer-IsWriter : IsWriter list_writer
list_writer-IsWriter = record {
  stored = λ c. c;
  HasRoom = λ k c. Unit;
  fewer = λ j k c few room. tt;
  takes = λ xs n k c e few room. refl;
  stays = λ xs n k c e few room. tt;
  keeps = λ xs n k c e few room. refl;
}

abbrev block : List ℕ
block = block_of 128 (0x68 ∷ 0x69 ∷ [])

wrong_sum : 0 ∷ [] ≢ trailer 32 xmodem block
unfolding generate_chksum block_of
wrong_sum e = omega (arith, ap head_of e)

abbrev good : List ℕ
good = packet xmodem 1 254 block (trailer 32 xmodem block)

abbrev bad : List ℕ
bad = packet xmodem 1 254 block (0 ∷ [])

-- A stray character, a corrupted packet, the packet again, and the end.
course : Receives 32 xmodem 1 0 (7 ∷ (bad ++ (good ++ eot ∷ []))) (nak ∷ ack ∷ []) (block ++ [])
unfolding block_of
course =
    noise 7 (omega arith)
      ((λ e. omega (arith, e)), (λ e. omega (arith, e)), (λ e. omega (arith, e)))
      (rejected false 1 254 block (0 ∷ []) (omega arith) refl refl (omega arith, tt) wrong_sum
        (inl refl)
        (accepted false 1 254 block (omega arith) refl (inl refl)
          (ended (omega arith) refl refl refl) refl refl refl)
        refl refl)
      refl

xmodem_rx-Receives_example :
    (s' : Session loopback (List ℕ)) × (xmodem_rx 1 list_writer xmodem 5
        (at loopback (replicate 132 0) [] (wire ((7 ∷ (bad ++ (good ++ eot ∷ []))) ++ 9 ∷ []) []))
      ≡ ok modem_no_errors s')
    × (s'.port.arriving ≡ 9 ∷ [])
    × (s'.port.sent ≡ [] ++ (nak ∷ ((nak ∷ ack ∷ []) ++ ack ∷ [])))
    × (s'.chan ≡ [] ++ (block ++ []))
xmodem_rx-Receives_example =
    xmodem_rx-Receives loopback-IsLine list_writer-IsWriter xmodem 5
      (7 ∷ (bad ++ (good ++ eot ∷ []))) (nak ∷ ack ∷ []) (block ++ []) (9 ∷ []) (replicate 132 0) []
      (wire ((7 ∷ (bad ++ (good ++ eot ∷ []))) ++ 9 ∷ []) []) (omega arith) (omega arith) course
      refl (omega arith) (omega arith) tt
