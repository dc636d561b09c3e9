-- ===== src/Xmodem/Tx/Fits.antt =====
-- What the transmitter keeps to, so that its packets fit the buffer that src/modem.h asks for, and
-- the steps before a packet is sent.
use libmodem.Crc.{generate_chksum, generate_crc}
use libmodem.Modem.{
  data_start, start_char, block_no, soh, ack, nak, cpmeof, ModemError, modem_no_errors,
  bad_crc_chksum, sent_can, packet_mismatch, channel_error, undefined_error, modem_hw_error,
  modem_timeout, not_implemented, XferMode, xmodem, xmodem_crc, xmodem_1k, is_xmodem, is_xmodem_1k,
  OutputChannel, serial_to_modem_error,
}
use libmodem.Prelude.{
  ℕ, ◌+◌, ◌-◌, ◌≤◌, ◌≡◌, refl, Bool, true, ◌&&◌, [], ◌∷◌, length, ltb, ltb→lt, ◌==◌, if◌then◌else◌,
  replicate, length-replicate, arith,
}
use libmodem.Serial.{SerialStatus, serial_no_errors, serial_timeout, serial_hw_error}
use libmodem.Serial.Primitives.{Serprim}
use libmodem.Xmodem.Frame.{size_of, trailer_size}
use libmodem.Xmodem.Returns.{Returns, returns, stops, bind, branch, by_sign}
use libmodem.Xmodem.Safety.{Holds, load_safe, load_byte_safe, store_safe}
use libmodem.Xmodem.Session.{Session, return}
use libmodem.Xmodem.Tx.{
  TxVars, tx_start, pad_buffer, switch_to_128, pad_packet, crc_bytes, seal, interpret, fetch, fill,
}

-- The codes that a transmitter may return.
abbrev pub IsTxCode : ModemError → Type 0
IsTxCode modem_no_errors = Unit
IsTxCode sent_can = Unit
IsTxCode channel_error = Unit
IsTxCode modem_hw_error = Unit
IsTxCode modem_timeout = Unit
IsTxCode bad_crc_chksum = ⊥
IsTxCode packet_mismatch = ⊥
IsTxCode undefined_error = ⊥
IsTxCode not_implemented = ⊥

abbrev pub TxEnds : {P : Serprim} {C : Type 0} → ℕ → ModemError → Session P C → Type 0
TxEnds N e s = IsTxCode e × (length s.buffer ≡ N)

-- The variables agree with the mode, and its packets fit.
abbrev pub TxFits : ℕ → TxVars → Type 0
TxFits N v =
    (data_start + size_of v.flags + trailer_size v.flags ≤ N)
    × (v.block_size ≡ size_of v.flags)
    × (v.chksum_offset ≡ data_start + size_of v.flags)
    × (v.packet_size ≡ data_start + size_of v.flags + trailer_size v.flags)

pub IsTxCode-status : (status : SerialStatus) → IsTxCode (serial_to_modem_error status)
unfolding serial_to_modem_error
IsTxCode-status serial_no_errors = tt
IsTxCode-status serial_timeout = tt
IsTxCode-status serial_hw_error = tt

pub tx_start-TxFits :
    (N : ℕ) (f : XferMode) → data_start + size_of f + trailer_size f ≤ N → TxFits N (tx_start f)
unfolding tx_start
tx_start-TxFits N xmodem room = omega arith
tx_start-TxFits N xmodem_crc room = omega arith
tx_start-TxFits N xmodem_1k room = omega arith

shrink-fits :
    (f : XferMode) (b : Bool) (N : ℕ)
    → data_start + size_of f + trailer_size f ≤ N
    → (is_xmodem_1k f && b) ≡ true
    → (133 ≤ N) × (◌≡◌ {A = ℕ} 128 128) × (◌≡◌ {A = ℕ} 131 131) × (◌≡◌ {A = ℕ} 133 133)
shrink-fits xmodem b N room small = cc
shrink-fits xmodem_crc b N room small = cc
shrink-fits xmodem_1k b N room small = omega arith

tag_length :
    (f : XferMode) (chksum crc : ℕ)
    → length (if is_xmodem f then chksum ∷ [] else crc_bytes crc) ≡ trailer_size f
unfolding crc_bytes
tag_length xmodem chksum crc = refl
tag_length xmodem_crc chksum crc = refl
tag_length xmodem_1k chksum crc = refl

module _ {P : Serprim} {C : Type 0} (N : ℕ) where
  abbrev Ready : TxVars → Session P C → Type 0
  Ready v s = TxFits N v × (length s.buffer ≡ N)

  switch_safe :
      (bytes_read : ℕ) (v : TxVars) (s : Session P C)
      → Ready v s
      → Returns Ready (TxEnds N) (Unit {0}) ⊥ (switch_to_128 bytes_read v s)
  unfolding switch_to_128
  switch_safe bytes_read v s (fits, e) =
      branch (is_xmodem_1k v.flags && ltb bytes_read v.block_size) _ _ s
        (λ small.
          bind (store_safe N start_char (soh ∷ []) s e (omega arith))
            (λ u s' e'. returns (shrink-fits v.flags _ N fits.0 small, e')))
        (λ large. returns (fits, e))

  pad_safe :
      (bytes_read : ℕ) (v : TxVars) (s : Session P C)
      → Ready v s
      → Returns Ready (TxEnds N) (Unit {0}) ⊥ (pad_packet bytes_read v s)
  unfolding pad_packet pad_buffer
  pad_safe bytes_read v s (fits, e) =
      branch (ltb bytes_read v.block_size) _ _ s
        (λ short.
          bind
            (store_safe N (data_start + bytes_read) (replicate (v.block_size - bytes_read) cpmeof) s
              e
              (omega (
                arith,
                ltb→lt bytes_read v.block_size short,
                length-replicate {0} (v.block_size - bytes_read) cpmeof,
              )))
            (λ u s' e'. returns (fits, e')))
        (λ full. returns (fits, e))

  pub seal_safe :
      (v : TxVars) (s : Session P C)
      → Ready v s
      → Returns (Holds N) (TxEnds N) (Unit {0}) ⊥ (seal v s)
  unfolding seal
  seal_safe v s (fits, e) =
      bind (load_safe N data_start v.block_size s e (omega arith)) (λ octets s' e'.
        store_safe N v.chksum_offset _ s' e' (
          omega
            (arith, tag_length v.flags (generate_chksum octets) (generate_crc P.int_bits octets))))

  pub interpret_safe :
      (v : TxVars) (s : Session P C)
      → Ready v s
      → Returns Ready (TxEnds N) (Unit {0}) ⊥ (interpret v s)
  unfolding interpret
  interpret_safe v s (fits, e) =
      branch (v.rx_code == ack) _ _ s
        (λ moved. bind (load_byte_safe N block_no s e (omega arith)) (λ block s' e'.
          bind (store_safe N block_no _ s' e' (omega arith)) (λ u s2 e2. returns (fits, e2))))
        (λ other.
          branch (v.rx_code == nak) _ _ s (λ again. returns (fits, e)) (λ odd. stops (tt, e)))

  fetch_safe :
      (channel : OutputChannel C) (n last : ℕ) (v : TxVars) (s : Session P C)
      → ((n last : ℕ) (c : C) → length (channel n last c).bytes ≤ n)
      → length s.buffer ≡ N
      → data_start + n ≤ N
      → Returns (Holds N) (TxEnds N) (Unit {0}) ⊥ (fetch channel n last s)
  unfolding fetch
  fetch_safe channel n last v s fills e room =
      bind
        (store_safe N data_start (channel n last s.chan).bytes _ e
          (omega (arith, fills n last s.chan)))
        (λ u s' e'. returns e')

  pub fill_safe :
      (channel : OutputChannel C) (v : TxVars) (s : Session P C)
      → ((n last : ℕ) (c : C) → length (channel n last c).bytes ≤ n)
      → Ready v s
      → Returns Ready (TxEnds N) (Unit {0}) ⊥ (fill channel v s)
  unfolding fill
  fill_safe channel v s fills (fits, e) =
      bind (fetch_safe channel v.block_size v.last_sent_size v s fills e (omega arith))
        (λ result s' e'.
          by_sign result (return channel_error) _ s' (stops (tt, e'))
            (λ n. bind (switch_safe n v s' (fits, e')) (λ v' s2 ready. pad_safe n v' s2 ready)))
