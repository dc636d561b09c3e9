-- ===== src/Modem/Buffers/Transfer.antt =====
-- A transfer from one buffer to another by the example channels of src/modem.h.
use native.Mathlib.Nat.{pow-le-pow_right}
use libmodem.Modem.{eot, ack, cpmeof, modem_no_errors, XferMode}
use libmodem.Modem.Buffers.{BufReader, BufWriter, read_from_buf, write_to_buf}
use libmodem.Modem.Buffers.Channels.{read_from_buf-IsReader, write_to_buf-IsWriter}
use libmodem.Modem.Buffers.Copy.{IsWithin}
use libmodem.Prelude.{
  ℕ, ◌+◌, ◌^◌, ◌≤◌, ◌<◌, ◌≡◌, List, [], ◌∷◌, ◌++◌, length, drop, take, replicate, arith,
}
use libmodem.Serial.Primitives.{Serprim, Handle}
use libmodem.Xmodem.Buffer.{at}
use libmodem.Xmodem.Frame.{size_of, trailer_size}
use libmodem.Xmodem.Line.{IsLine}
use libmodem.Xmodem.RoundTrip.{round_trip}
use libmodem.Xmodem.Rx.{xmodem_rx}
use libmodem.Xmodem.Session.{Session, ok}
use libmodem.Xmodem.Tx.{xmodem_tx}
use libmodem.Xmodem.Tx.Packets.{Sends}
use libmodem.Xmodem.Tx.Phases.{request}

-- Two platforms with an `unsigned int` of 16 bits or more and a `size_t` as wide or wider, whose
-- lines work, packet buffers as large as the mode's packet, a buffer to send and one to fill, with
-- positions within their lengths, which fit an `int`, and room for 1024 bytes more than are sent:
-- if what arrives at each end is what the other end sends for these bytes, then with fuel for every
-- packet `xmodem_tx` with `read_from_buf` and `xmodem_rx` with `write_to_buf` both return no error,
-- and the second buffer has, behind what it held, the bytes and at most 1024 of CPMEOF.
pub buffers_round_trip :
    {P Q : Serprim} {h h' : Handle} (L : IsLine P h) (M : IsLine Q h') (f : XferMode) (fuel m : ℕ)
    (out buffer buffer' : List ℕ) (reader : BufReader) (writer : BufWriter) (p : P.Port)
    (q : Q.Port)
    → 16 ≤ P.int_bits
    → 16 ≤ Q.int_bits
    → P.int_bits ≤ P.size_bits
    → Q.int_bits ≤ Q.size_bits
    → 3 + size_of f + trailer_size f ≤ length buffer
    → 3 + size_of f + trailer_size f ≤ length buffer'
    → IsWithin P.int_bits P.size_bits reader.bufpos reader.buflen reader.buf
    → IsWithin Q.int_bits Q.size_bits writer.bufpos writer.buflen writer.buf
    → writer.bufpos + length (drop reader.bufpos reader.buf) + 1024 ≤ writer.buflen
    → Sends P.int_bits f 1 (drop reader.bufpos reader.buf) (replicate m ack) out
    → L.incoming p ≡ request f ∷ (replicate m ack ++ ack ∷ [])
    → M.incoming q ≡ out ++ eot ∷ []
    → m < fuel
    → (s : Session P BufReader) × (t : Session Q BufWriter) × (pad : ℕ) × (xmodem_tx h
          (read_from_buf P.int_bits P.size_bits)
          f
          fuel
          (at P buffer reader p)
        ≡ ok modem_no_errors s)
      × (xmodem_rx h' (write_to_buf Q.int_bits Q.size_bits) f fuel (at Q buffer' writer q)
          ≡ ok modem_no_errors t)
      × (pad ≤ 1024)
      × (take t.chan.bufpos t.chan.buf
          ≡ take writer.bufpos writer.buf
            ++ (drop reader.bufpos reader.buf ++ replicate pad cpmeof))
buffers_round_trip {P} {Q} L M f fuel m out buffer buffer' reader writer p q wide wide' size size'
      room room' from to space sends there here enough =
    let big : 1024 < 2 ^ Q.size_bits =
      omega
        (arith, pow-le-pow_right {n = 2} (omega arith) {i = 16} {j = Q.size_bits} (omega arith)) in
    let (s, t, pad, transmits, receives, _, _, small, kept) =
      round_trip L M (read_from_buf-IsReader P.int_bits P.size_bits size)
        (write_to_buf-IsWriter Q.int_bits Q.size_bits size') f fuel m out buffer buffer' reader
        writer p q wide wide' big room room' (omega (arith, from), from.1, from.2) sends there here
        enough (to, omega (arith, space)) in
    (s, t, pad, transmits, receives, small, kept)
