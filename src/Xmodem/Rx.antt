-- ===== src/Xmodem/Rx.antt =====
-- `xmodem_rx` of src/xmodem.c. The loop over the packets and `purge` take fuel, one unit a round;
-- the loop that waits for the first character is given `wait_rounds`.
pub mod Course
pub mod First
pub mod Looks
pub mod Counter
pub mod Verdict
pub mod Packet
pub mod Rounds
pub mod Reception
pub mod Transfer
pub mod Fits
pub mod Safety
pub mod Fresh
pub mod Answers
pub mod Termination
pub mod Mismatch
pub mod Channel
pub mod Patience
pub mod Transcript
use libmodem.Crc.{generate_chksum, generate_crc}
use libmodem.Modem.{
  nul, soh, stx, eot, ack, nak, can, ascii_c, block_no, comp_block_no, data_start, chksum_crc,
  chksum_end, crc_end, x1k_crc, x1k_end, ModemError, modem_no_errors, bad_crc_chksum,
  packet_mismatch, channel_error, undefined_error, modem_timeout, XferMode, xmodem, xmodem_crc,
  xmodem_1k, is_xmodem, is_xmodem_crc, is_xmodem_1k, InputChannel, serial_to_modem_error,
}
use libmodem.Prelude.{
  ℕ, zero, suc, ◌+◌, ◌-◌, ◌%◌, ◌^◌, Bool, true, false, not, ◌&&◌, ◌||◌, [], ◌∷◌, ltb, ◌==◌,
  if◌then◌else◌,
}
use libmodem.Prelude.Int.{ℤ, pos}
use libmodem.Serial.{SerialStatus, serial_no_errors, serial_timeout}
use libmodem.Serial.Primitives.{Serprim, Handle}
use libmodem.Xmodem.Session.{
  Session, Run, ok, out_of_fuel, returned, ◌>>=◌, ◌>>◌, pure, return, load, store, load_byte, snd,
  rcv, to_unsigned,
}
use libmodem.Xmodem.Wait.{purge}

-- The variables of `xmodem_rx`.
pub record RxVars : Type 0 where
  pub flags : XferMode
  pub tx_code : ℕ
  pub error_count : ℕ
  pub expected_start_char_1 : ℕ
  pub expected_start_char_2 : ℕ
  pub expected_block_no : ℕ
  pub expected_comp_block_no : ℕ
  pub eot_detected : Bool
  pub using_128_blocks_in_1k : Bool
  pub chksum_offset : ℕ
  pub packet_end : ℕ

-- "Set initial transmission code and expected response"; `error_count` is -1, at `w` bits.
unfoldable pub rx_start : ℕ → XferMode → RxVars
rx_start w flags = record {
  flags = flags;
  tx_code = if is_xmodem flags then nak else ascii_c;
  error_count = 2 ^ w - 1;
  expected_start_char_1 = if is_xmodem_1k flags then stx else soh;
  expected_start_char_2 = soh;
  expected_block_no = 0x01;
  expected_comp_block_no = 0xFE;
  eot_detected = false;
  using_128_blocks_in_1k = false;
  chksum_offset = if is_xmodem_1k flags then x1k_crc else chksum_crc;
  packet_end = elim flags [ xmodem_1k ↦ x1k_end | xmodem_crc ↦ crc_end | xmodem ↦ chksum_end ];
}

-- "Fallback to XMODEM from XMODEM_CRC if conditions are met."
unfoldable pub fallback : RxVars → RxVars
fallback v =
    if is_xmodem_crc v.flags && ltb 2 v.error_count
    then record v { flags = xmodem; tx_code = nak; packet_end = chksum_end }
    else v

-- "Check for small XMODEM-1K packet."
unfoldable pub adjust : ℕ → RxVars → RxVars
adjust c v =
    if is_xmodem_1k v.flags
    then (if (c == soh) && not v.using_128_blocks_in_1k
        then record v {
          chksum_offset = chksum_crc;
          packet_end = crc_end;
          using_128_blocks_in_1k = true;
        }
        else if (c == stx) && v.using_128_blocks_in_1k
        then record v {
          chksum_offset = x1k_crc;
          packet_end = x1k_end;
          using_128_blocks_in_1k = false;
        }
        else v)
    else v

-- The counter runs from -1 to 11, and the round that makes it 12 returns.
abbrev pub wait_rounds : ℕ
wait_rounds = 13

module _ {P : Serprim} {C : Type 0} where
  -- The tests of the checksum or the CRC.
  unfoldable pub check_sum : RxVars → Session P C → Run (Session P C) ModemError
  check_sum v =
      if is_xmodem v.flags
      then (do
        octets ← load data_start (v.chksum_offset - data_start)
        chksum ← load_byte chksum_crc
        pure (if not (generate_chksum octets == chksum) then bad_crc_chksum else modem_no_errors))
      else (do
        octets ← load data_start (v.packet_end - data_start)
        pure
            (if not (generate_crc P.int_bits octets == 0) then bad_crc_chksum else modem_no_errors))

  -- A call of the channel with `data_size` bytes of the packet.
  unfoldable pub deliver : InputChannel C → ℕ → Bool → Session P C → Run (Session P C) ℤ
  deliver data_in_fcn data_size eof = do
    octets ← load data_start data_size
    λ s.
        let (result, chan) = data_in_fcn octets data_size eof s.chan in
        ok result (record s { chan = chan })

module _ {P : Serprim} {C : Type 0} (device : Handle) where
  -- The loop that waits for the first character of a packet, from a counter of errors on.
  unfoldable pub first_char_loop : ℕ → RxVars → Session P C → Run (Session P C) RxVars
  unfolding fallback
  first_char_loop zero v = λ _. out_of_fuel
  first_char_loop (suc fuel) v =
      let counted = record v { error_count = (v.error_count + 1) % 2 ^ P.int_bits } in
      if ltb 11 counted.error_count then (do snd device (can ∷ []); return modem_timeout) else (do
        let v' = fallback counted
        r ← rcv device 1 (pos 10) false
        store 0 r.bytes
        c ← load_byte 0
        if (c == v'.expected_start_char_2) || (c == v'.expected_start_char_1)
            then pure v'
            else if c == eot
            then pure (record v' { eot_detected = true })
            else (elim r.status [
              | serial_timeout ↦ (do snd device (v'.tx_code ∷ []); first_char_loop fuel v')
              | other ↦ first_char_loop fuel v'
            ]))

  -- The tests of a packet: its status, or an early return.
  unfoldable pub check_packet :
      ℕ → RxVars → SerialStatus → Session P C → Run (Session P C) ModemError
  unfolding check_sum
  check_packet fuel v ser_status = elim ser_status [
    | serial_no_errors ↦ (do
      comp ← load_byte comp_block_no
      block ← load_byte block_no
      if not (comp == v.expected_comp_block_no) && not (block == v.expected_block_no)
          then (do snd device (can ∷ []); return packet_mismatch)
          else check_sum v)
    | other ↦ (do purge device fuel; pure (serial_to_modem_error other))
  ]

  module _ (data_in_fcn : InputChannel C) where
    -- The branch of a good packet: `int` is converted to `size_t` for the comparison.
    unfoldable pub accept : RxVars → Session P C → Run (Session P C) RxVars
    unfolding deliver
    accept v = do
      let next = (v.expected_block_no + 1) % 2 ^ 8
      let data_size = v.chksum_offset - data_start
      result ← deliver data_in_fcn data_size v.eot_detected
      if ltb (to_unsigned P.size_bits result) data_size
          then (do snd device (can ∷ []); return channel_error)
          else (do
            snd device (ack ∷ [])
            pure (record v {
              expected_block_no = next;
              expected_comp_block_no = 255 - next;
              error_count = 2 ^ P.int_bits - 1;
              tx_code = nak;
            }))

    -- The `switch` on the packet's status, and the line behind it.
    unfoldable pub respond : ModemError → RxVars → Session P C → Run (Session P C) RxVars
    unfolding accept
    respond modem_no_errors v = accept v
    respond bad_crc_chksum v = do snd device (nak ∷ []); pure (record v { tx_code = nak })
    respond modem_timeout v = do snd device (nak ∷ []); pure (record v { tx_code = nak })
    respond _ v = do snd device (can ∷ []); return undefined_error

    -- The rest of a packet whose first character has come.
    unfoldable pub rx_packet : ℕ → RxVars → Session P C → Run (Session P C) RxVars
    unfolding adjust check_packet respond
    rx_packet fuel v = do
      c ← load_byte 0
      let v' = adjust c v
      r ← rcv device (v'.packet_end - block_no) (pos 1) false
      store 1 r.bytes
      status ← check_packet fuel v' r.status
      respond status v'

    unfoldable pub rx_loop : ℕ → RxVars → Session P C → Run (Session P C) RxVars
    unfolding first_char_loop rx_packet
    rx_loop zero v = λ _. out_of_fuel
    rx_loop (suc fuel) v = do
      store 0 (nul ∷ [])
      v' ← first_char_loop wait_rounds v
      if v'.eot_detected then pure v' else (do v'' ← rx_packet fuel v'; rx_loop fuel v'')

    unfoldable pub rx_body : XferMode → ℕ → Session P C → Run (Session P C) ModemError
    unfolding rx_start rx_loop
    rx_body flags fuel = do
      let v = rx_start P.int_bits flags
      snd device (v.tx_code ∷ [])
      rx_loop fuel v
      snd device (ack ∷ [])
      pure modem_no_errors

    unfoldable pub xmodem_rx : XferMode → ℕ → Session P C → Run (Session P C) ModemError
    unfolding rx_body
    xmodem_rx flags fuel s = returned (rx_body flags fuel s)
