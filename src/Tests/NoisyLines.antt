-- ===== src/Tests/NoisyLines.antt =====
-- A file over two loopback lines that damage a packet and put in characters.
use libmodem.Crc.{generate_crc}
use libmodem.Modem.{nak, ack, eot, cpmeof, modem_no_errors, xmodem_crc}
use libmodem.Prelude.{
  ℕ, ◌≡◌, ◌≤◌, refl, inl, Bool, true, ◌&&◌, List, [], ◌∷◌, ◌++◌, drop, arith, replicate, ltb,
}
use libmodem.Tests.Loopback.{
  Wire, wire, loopback, loopback-IsLine, list_reader, list_reader-IsReader,
}
use libmodem.Tests.Receptions.{list_writer, list_writer-IsWriter}
use libmodem.Xmodem.Buffer.{at}
use libmodem.Xmodem.Crossing.{Crosses, final, damaged, stray}
use libmodem.Xmodem.Crossing.Damage.{IsBytes, Damages, burst}
use libmodem.Xmodem.Frame.{checked, framed, block_of}
use libmodem.Xmodem.NoisyRoundTrip.{noisy_round_trip}
use libmodem.Xmodem.Rx.{xmodem_rx}
use libmodem.Xmodem.Session.{Session, ok}
use libmodem.Xmodem.Tx.{xmodem_tx}

abbrev file : List ℕ
file = 0x68 ∷ 0x69 ∷ []

abbrev octets : List ℕ
octets = checked 32 xmodem_crc file

abbrev buffer : List ℕ
buffer = replicate 133 0

-- The first byte of the data arrives changed, and the second one with it.
abbrev got : List ℕ
got = 0x86 ∷ 0x96 ∷ drop 2 octets

-- A stray character, the damaged packet, its repetition with a wrong complement, and another stray
-- character before the EOT.
abbrev crossed : List ℕ
crossed = 0x20 ∷ 1 ∷ 1 ∷ 254 ∷ (got ++ (1 ∷ 1 ∷ 0 ∷ (octets ++ (0x20 ∷ eot ∷ []))))

abbrev sent : List ℕ
sent = framed 32 xmodem_crc 1 file ++ framed 32 xmodem_crc 1 file

abbrev all_bytes : List ℕ → Bool
all_bytes [] = true
all_bytes (x ∷ xs) = ltb x 256 && all_bytes xs

all_bytes-IsBytes : (xs : List ℕ) → all_bytes xs ≡ true → IsBytes xs
all_bytes-IsBytes [] h = tt
all_bytes-IsBytes (x ∷ xs) h = (ground arith, all_bytes-IsBytes xs (ground arith))

a_burst : Damages xmodem_crc octets got
unfolding block_of generate_crc
a_burst =
    burst [] (drop 2 octets) 0x68 0x69 0x86 0x96 refl (λ same. omega (arith, same.0))
      (all_bytes-IsBytes octets refl) (all_bytes-IsBytes got refl) refl refl

a_crossing : Crosses 32 xmodem_crc xmodem_crc 1 0 file (nak ∷ ack ∷ []) sent crossed
a_crossing =
    stray 0x20 (omega arith) (omega arith, omega arith, omega arith)
      (damaged 1 254 got (omega arith) (inl refl) a_burst
        (final 1 0 (0x20 ∷ []) (omega arith) (omega arith) (inl refl)
          ((omega arith, omega arith, omega arith), tt) (omega arith) refl refl refl)
        refl refl refl)
      refl

abbrev from_receiver : Wire
from_receiver = wire ((0x3F ∷ []) ++ (67 ∷ ((nak ∷ ack ∷ []) ++ ((nak ∷ []) ++ (ack ∷ []))))) []

abbrev from_transmitter : Wire
from_transmitter = wire (crossed ++ replicate 1 eot) []

noisy_round_trip_example :
    (s t : Session loopback (List ℕ)) × (pad : ℕ) × (xmodem_tx 1 list_reader xmodem_crc 4
        (at loopback buffer file from_receiver)
      ≡ ok modem_no_errors s)
    × (xmodem_rx 1 list_writer xmodem_crc 4 (at loopback buffer [] from_transmitter)
        ≡ ok modem_no_errors t)
    × (s.port.sent ≡ [] ++ (sent ++ replicate 2 eot))
    × (t.port.sent ≡ [] ++ (67 ∷ ((nak ∷ ack ∷ []) ++ ack ∷ [])))
    × (pad ≤ 1024)
    × (t.chan ≡ [] ++ (file ++ replicate pad cpmeof))
noisy_round_trip_example =
    noisy_round_trip loopback-IsLine loopback-IsLine list_reader-IsReader list_writer-IsWriter
      xmodem_crc 4 (0x3F ∷ []) (nak ∷ ack ∷ []) (nak ∷ []) sent crossed buffer buffer file []
      from_receiver from_transmitter (omega arith) (omega arith) (omega arith) (omega arith)
      (omega arith) (omega arith) a_crossing (omega arith, tt) ((omega arith, omega arith), tt) refl
      refl (omega arith) (omega arith) (omega arith) tt
