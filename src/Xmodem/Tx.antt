-- ===== src/Xmodem/Tx.antt =====
-- `xmodem_tx` of src/xmodem.c with the private functions that it calls. Each loop takes fuel, one
-- unit a round.
pub mod Pad
pub mod Fill
pub mod Round
pub mod Packets
pub mod Phases
pub mod Dialogue
pub mod Transfer
pub mod Fits
pub mod Safety
pub mod Termination
use libmodem.Crc.{generate_chksum, generate_crc}
use libmodem.Modem.{
  nul, soh, stx, eot, ack, nak, can, cpmeof, start_char, block_no, data_start, chksum_crc, x1k_crc,
  ModemError, modem_no_errors, sent_can, channel_error, XferMode, xmodem_crc, is_xmodem,
  is_xmodem_1k, OutputChannel, serial_to_modem_error,
}
use libmodem.Prelude.{
  ℕ, zero, suc, ◌+◌, ◌-◌, ◌/◌, ◌%◌, ◌^◌, bit_and, Bool, true, false, ◌&&◌, ◌||◌, List, [], ◌∷◌, ltb,
  ◌==◌, if◌then◌else◌, replicate,
}
use libmodem.Prelude.Int.{ℤ, pos, negsuc}
use libmodem.Serial.{serial_no_errors}
use libmodem.Serial.Primitives.{Serprim, Handle}
use libmodem.Xmodem.Session.{
  Session, Run, out_of_fuel, returned, ◌>>=◌, ◌>>◌, pure, return, load, store, load_byte, snd,
  flush, rcv,
}
use libmodem.Xmodem.Wait.{received_char, wait_for_rx_ready}

-- The variables of `xmodem_tx` that its loops change.
pub record TxVars : Type 0 where
  pub flags : XferMode
  pub chksum_offset : ℕ
  pub block_size : ℕ
  pub packet_size : ℕ
  pub last_sent_size : ℕ
  pub eof_detected : Bool
  pub rx_code : ℕ

-- The bytes that are in place before the first packet.
unfoldable pub header : XferMode → List ℕ
header flags = (if is_xmodem_1k flags then stx else soh) ∷ 0x01 ∷ 0xFE ∷ []

unfoldable pub tx_start : XferMode → TxVars
tx_start flags =
    let offset = if is_xmodem_1k flags then x1k_crc else chksum_crc in
    record {
      flags = flags;
      chksum_offset = offset;
      block_size = if is_xmodem_1k flags then 1024 else 128;
      packet_size = if is_xmodem flags then offset + 1 else offset + 2;
      last_sent_size = 0;
      eof_detected = false;
      rx_code = nul;
    }

-- The variables of the smaller packets.
abbrev pub shrink : TxVars → TxVars
shrink v = record v {
  flags = xmodem_crc;
  chksum_offset = chksum_crc;
  block_size = 128;
  packet_size = chksum_crc + 2;
}

-- The two bytes of a CRC.
unfoldable pub crc_bytes : ℕ → List ℕ
crc_bytes crc16 = (bit_and crc16 0xFF00 / 2 ^ 8 % 2 ^ 8) ∷ (bit_and crc16 0x00FF % 2 ^ 8) ∷ []

module _ {P : Serprim} {C : Type 0} where
  unfoldable pub pad_buffer : ℕ → ℕ → ℕ → Session P C → Run (Session P C) (Unit {0})
  pad_buffer offset bufsiz val = store offset (replicate bufsiz val)

  -- "If less than 1024 bytes left in XMODEM_1K, switch to 128 byte to reduce overhead."
  unfoldable pub switch_to_128 : ℕ → TxVars → Session P C → Run (Session P C) TxVars
  switch_to_128 bytes_read v =
      if is_xmodem_1k v.flags && ltb bytes_read v.block_size
      then (do store start_char (soh ∷ []); pure (shrink v))
      else pure v

  -- "Pad a short packet."
  unfoldable pub pad_packet : ℕ → TxVars → Session P C → Run (Session P C) TxVars
  unfolding pad_buffer
  pad_packet bytes_read v =
      if ltb bytes_read v.block_size
      then (do
        pad_buffer (data_start + bytes_read) (v.block_size - bytes_read) cpmeof
        pure (record v { eof_detected = true }))
      else pure v

  -- "Generate the checksum/CRC."
  unfoldable pub seal : TxVars → Session P C → Run (Session P C) (Unit {0})
  unfolding crc_bytes
  seal v = do
    octets ← load data_start v.block_size
    store v.chksum_offset (
        if is_xmodem v.flags
        then generate_chksum octets ∷ []
        else crc_bytes (generate_crc P.int_bits octets))

  -- "Interpret the response."
  unfoldable pub interpret : TxVars → Session P C → Run (Session P C) TxVars
  interpret v =
      if v.rx_code == ack
      then (do
        block ← load_byte block_no
        store block_no (((block + 1) % 2 ^ 8) ∷ (255 - (block + 1) % 2 ^ 8) ∷ [])
        pure (record v { last_sent_size = v.block_size }))
      else if v.rx_code == nak
      then pure (record v { last_sent_size = 0; eof_detected = false })
      else return sent_can

  module _ (data_out_fcn : OutputChannel C) where
    -- A call of the channel, which stores into the packet from `DATA` on.
    unfoldable pub fetch : ℕ → ℕ → Session P C → Run (Session P C) ℤ
    fetch request_size last_sent_size s =
        let f = data_out_fcn request_size last_sent_size s.chan in
        (store data_start f.bytes >> pure f.result) (record s { chan = f.chan })

    -- From the call of the channel to the padding, with what the result says.
    unfoldable pub fill : TxVars → Session P C → Run (Session P C) TxVars
    unfolding fetch switch_to_128 pad_packet
    fill v = do
      result ← fetch v.block_size v.last_sent_size
      elim result [
        | negsuc n ↦ return channel_error
        | pos bytes_read ↦ (do v' ← switch_to_128 bytes_read v; pad_packet bytes_read v')
      ]

module _ {P : Serprim} {C : Type 0} (device : Handle) where
  -- "Send the packet. Wait for any character."
  unfoldable pub send_and_wait : ℕ → TxVars → Session P C → Run (Session P C) TxVars
  send_and_wait packet_size v = do
    packet ← load start_char packet_size
    snd device packet
    flush device
    r ← rcv device 1 (pos 60) false
    elim r.status [
      | serial_no_errors ↦ pure (record v { rx_code = received_char v.rx_code r.bytes })
      | other ↦ return (serial_to_modem_error r.status)
    ]

  -- The loop that sends the end of the transmission.
  unfoldable pub eot_loop : ℕ → ℕ → Session P C → Run (Session P C) ModemError
  eot_loop zero rx_code = λ _. out_of_fuel
  eot_loop (suc fuel) rx_code = do
    snd device (eot ∷ [])
    r ← rcv device 1 (pos 60) false
    let rx_code' = received_char rx_code r.bytes
    elim r.status [
      | serial_no_errors ↦
          if (rx_code' == ack) || (rx_code' == can)
          then pure (if rx_code' == ack then modem_no_errors else sent_can)
          else eot_loop fuel rx_code'
      | other ↦ return (serial_to_modem_error r.status)
    ]

  module _ (data_out_fcn : OutputChannel C) where
    -- One round of the loop over the packets.
    unfoldable pub tx_round : TxVars → Session P C → Run (Session P C) TxVars
    unfolding fill seal send_and_wait interpret
    tx_round v = do
      v' ← fill data_out_fcn v
      seal v'
      answered ← send_and_wait v'.packet_size v'
      interpret answered

    unfoldable pub packet_loop : ℕ → TxVars → Session P C → Run (Session P C) TxVars
    unfolding tx_round
    packet_loop zero v = λ _. out_of_fuel
    packet_loop (suc fuel) v = do
      v' ← tx_round v
      if v'.eof_detected then pure v' else packet_loop fuel v'

    unfoldable pub tx_body : XferMode → ℕ → Session P C → Run (Session P C) ModemError
    unfolding wait_for_rx_ready header tx_start packet_loop eot_loop
    tx_body flags fuel = do
      flush device
      status ← wait_for_rx_ready device flags fuel
      elim status [
        | modem_no_errors ↦ (do
          store start_char (header flags)
          v ← packet_loop fuel (tx_start flags)
          eot_loop fuel v.rx_code)
        | other ↦ return other
      ]

    -- Each of the three loops is given `fuel` rounds.
    unfoldable pub xmodem_tx : XferMode → ℕ → Session P C → Run (Session P C) ModemError
    unfolding tx_body
    xmodem_tx flags fuel s = returned (tx_body flags fuel s)
