-- ===== src/Xmodem/Tx/Termination.antt =====
-- `xmodem_tx` ends where only so many bytes come and the hardware has no errors, with fuel for what
-- is still to come.
use libmodem.Modem.{
  soh, eot, ack, nak, can, ascii_c, cpmeof, data_start, start_char, block_no, channel_error, nul,
  modem_no_errors, sent_can, ModemError, XferMode, is_xmodem, is_xmodem_crc, is_xmodem_1k,
  OutputChannel, serial_to_modem_error,
}
use libmodem.Prelude.{
  ℕ, zero, suc, ◌+◌, ◌-◌, ◌%◌, ◌^◌, ◌≤◌, ◌<◌, ◌≡◌, Bool, true, false, ◌&&◌, ◌||◌, [], ◌∷◌, length,
  ltb, ◌==◌, if◌then◌else◌, replicate, arith,
}
use libmodem.Prelude.Int.{pos}
use libmodem.Serial.{serial_no_errors}
use libmodem.Serial.Primitives.{Serprim, Handle}
use libmodem.Xmodem.Draining.{
  IsDraining, IsSoft, Ends, Left, Drained-left, Drained-received, Drained-IsSoft, load_keeps,
  load_byte_keeps, store_keeps, snd_drains, flush_drains, rcv_drains,
}
use libmodem.Xmodem.Frame.{size_of, trailer_size}
use libmodem.Xmodem.Returns.{
  returns, stops, bind, weaken, branch, by_code, by_status, by_sign, returned_lem, value_of,
}
use libmodem.Xmodem.Safety.{IsBounded}
use libmodem.Xmodem.Session.{Session, Run, ok, pure, return, to_unsigned}
use libmodem.Xmodem.Tx.{
  TxVars, header, tx_start, pad_buffer, switch_to_128, pad_packet, seal, interpret, fetch, fill,
  send_and_wait, eot_loop, packet_loop, tx_round, tx_body, xmodem_tx,
}
use libmodem.Xmodem.Tx.Fits.{IsTxCode}
use libmodem.Xmodem.Tx.Safety.{xmodem_tx-TxEnds}
use libmodem.Xmodem.Wait.{ready_loop, wait_for_rx_ready, received_char, seconds}

-- The work on the packet leaves the port alone.
module _ {P : Serprim} {C : Type 0} (J : P.Port → Type 0) where
  switch_keeps :
      (n : ℕ) (v : TxVars) (s : Session P C)
      → J s.port
      → Ends (λ v' s'. J s'.port) (switch_to_128 n v s)
  unfolding switch_to_128
  switch_keeps n v s j =
      branch (is_xmodem_1k v.flags && ltb n v.block_size) _ _ s
        (λ small. bind (store_keeps J start_char (soh ∷ []) s j) (λ u s' j'. returns j'))
        (λ large. returns j)

  pad_keeps :
      (n : ℕ) (v : TxVars) (s : Session P C)
      → J s.port
      → Ends (λ v' s'. J s'.port) (pad_packet n v s)
  unfolding pad_packet pad_buffer
  pad_keeps n v s j =
      branch (ltb n v.block_size) _ _ s
        (λ short.
          bind (store_keeps J (data_start + n) (replicate (v.block_size - n) cpmeof) s j)
            (λ u s' j'. returns j'))
        (λ full. returns j)

  fill_keeps :
      (channel : OutputChannel C) (v : TxVars) (s : Session P C)
      → J s.port
      → Ends (λ v' s'. J s'.port) (fill channel v s)
  unfolding fill fetch
  fill_keeps channel v s j =
      bind
        (bind (store_keeps J data_start (channel v.block_size v.last_sent_size s.chan).bytes _ j)
          (λ u s' j'. returns j'))
        (λ result s1 j1.
          by_sign result (return channel_error) _ s1 (stops tt)
            (λ n. bind (switch_keeps n v s1 j1) (λ v' s2 j2. pad_keeps n v' s2 j2)))

  seal_keeps : (v : TxVars) (s : Session P C) → J s.port → Ends (λ u s'. J s'.port) (seal v s)
  unfolding seal
  seal_keeps v s j =
      bind (load_keeps J data_start v.block_size s j)
        (λ octets s' j'. store_keeps J v.chksum_offset _ s' j')

  interpret_keeps :
      (v : TxVars) (s : Session P C) → J s.port → Ends (λ v' s'. J s'.port) (interpret v s)
  unfolding interpret
  interpret_keeps v s j =
      branch (v.rx_code == ack) _ _ s
        (λ moved.
          bind (load_byte_keeps J block_no s j)
            (λ block s1 j1. bind (store_keeps J block_no _ s1 j1) (λ u s2 j2. returns j2)))
        (λ other. branch (v.rx_code == nak) _ _ s (λ again. returns j) (λ odd. stops tt))

module _ {P : Serprim} {h : Handle} (D : IsDraining P h) {C : Type 0} where
  -- An answer takes a byte off the line.
  send_drains :
      (m size : ℕ) (v : TxVars) (s : Session P C)
      → Left D m s
      → Ends (λ v' s'. 1 + D.pending s'.port ≤ m) (send_and_wait h size v s)
  unfolding send_and_wait
  send_drains m size v s less =
      bind (load_keeps (λ p. D.pending p ≤ m) start_char size s less) (λ packet s1 less1.
        bind (snd_drains D m packet s1 less1) (λ a s2 (less2, same2).
          bind (flush_drains D m s2 less2) (λ b s3 less3.
            bind (rcv_drains D m 1 (pos 60) false s3 less3) (λ r s4 (drained, same4).
              by_status r.status _ _ s4 (λ good. returns (Drained-received D 1 m r s4 drained good))
                (λ bad. stops (Drained-IsSoft D 1 m r s4 drained))))))

  eot_drains :
      (fuel m rx_code : ℕ) (s : Session P C)
      → Left D m s
      → m < fuel
      → Ends (λ e s'. IsSoft e) (eot_loop h fuel rx_code s)
  unfolding eot_loop
  eot_drains zero m rx_code s less enough = absurd (omega arith)
  eot_drains (suc fuel) m rx_code s less enough =
      bind (snd_drains D m (eot ∷ []) s less) (λ a s1 (less1, same1).
        bind (rcv_drains D m 1 (pos 60) false s1 less1) (λ r s2 (drained, same2).
          let code = received_char rx_code r.bytes in
          by_status r.status _ _ s2
            (λ good.
              let fewer = Drained-received D 1 m r s2 drained good in
              branch ((code == ack) || (code == can)) _ _ s2
                (λ known. returns (ended (code == ack)))
                (λ other.
                  eot_drains fuel (D.pending s2.port) code s2 (omega arith) (omega (arith, fewer))))
            (λ bad. stops (Drained-IsSoft D 1 m r s2 drained))))
    where
      ended : (b : Bool) → IsSoft (if b then modem_no_errors else sent_can)
      ended true = tt
      ended false = tt

  ready_drains :
      (f : XferMode) (fuel m elapsed_time rx_code : ℕ) (s : Session P C)
      → Left D m s
      → m < fuel
      → Ends (λ e s'. IsSoft e × Left D m s') (ready_loop h f fuel elapsed_time rx_code s)
  unfolding ready_loop serial_to_modem_error
  ready_drains f zero m elapsed_time rx_code s less enough = absurd (omega arith)
  ready_drains f (suc fuel) m elapsed_time rx_code s less enough =
      bind (rcv_drains D m 1 _ true s less) (λ r s1 (drained, same1).
        let code = received_char rx_code r.bytes in
        let elapsed =
          (elapsed_time + to_unsigned P.int_bits (seconds r.time_spent)) % 2 ^ P.int_bits in
        let found : Session P C → Run (Session P C) ModemError =
          pure (serial_to_modem_error serial_no_errors) in
        let again : Session P C → Run (Session P C) ModemError = ready_loop h f fuel elapsed code in
        let asked : Bool = is_xmodem f && (code == nak) in
        by_status r.status _ _ s1
          (λ good.
            let fewer = Drained-received D 1 m r s1 drained good in
            branch ((is_xmodem_1k f || is_xmodem_crc f) && (code == ascii_c)) found
              (if asked then found else again) s1 (λ yes_crc. returns (tt, omega (arith, fewer)))
              (λ no_crc.
                branch asked found again s1 (λ yes_nak. returns (tt, omega (arith, fewer)))
                  (λ noise.
                    weaken
                      (ready_drains f fuel (D.pending s1.port) elapsed code s1 (omega arith)
                        (omega (arith, fewer)))
                      (λ e s2 (soft, less2). (soft, omega (arith, less2, fewer))))))
          (λ bad. returns (Drained-IsSoft D 1 m r s1 drained, Drained-left D 1 m r s1 drained)))

  packets_drain :
      (channel : OutputChannel C) (fuel m : ℕ) (v : TxVars) (s : Session P C)
      → Left D m s
      → m < fuel
      → Ends (λ v' s'. Left D m s') (packet_loop h channel fuel v s)
  unfolding packet_loop tx_round
  packets_drain channel zero m v s less enough = absurd (omega arith)
  packets_drain channel (suc fuel) m v s less enough =
      bind
        (bind (fill_keeps (λ p. D.pending p ≤ m) channel v s less) (λ v1 s1 less1.
          bind (seal_keeps (λ p. D.pending p ≤ m) v1 s1 less1) (λ u s2 less2.
            bind (send_drains m v1.packet_size v1 s2 less2)
              (λ v2 s3 fewer. interpret_keeps (λ p. 1 + D.pending p ≤ m) v2 s3 fewer))))
        (λ v' s' fewer.
          branch v'.eof_detected _ _ s' (λ done. returns (omega (arith, fewer)))
            (λ more.
              weaken
                (packets_drain channel fuel (D.pending s'.port) v' s' (omega arith)
                  (omega (arith, fewer)))
                (λ v'' s'' less''. omega (arith, less'', fewer))))

  body_drains :
      (channel : OutputChannel C) (f : XferMode) (fuel m : ℕ) (s : Session P C)
      → Left D m s
      → m < fuel
      → Ends (λ e s'. IsSoft e) (tx_body h channel f fuel s)
  unfolding tx_body wait_for_rx_ready
  body_drains channel f fuel m s less enough = bind (flush_drains D m s less) (λ a s1 less1.
      bind (ready_drains f fuel m 0 nul s1 less1 enough) (λ status s2 (soft, less2).
        by_code status _ (λ other. return other) s2
          (bind (store_keeps (λ p. D.pending p ≤ m) start_char (header f) s2 less2) (λ u s3 less3.
            bind (packets_drain channel fuel m (tx_start f) s3 less3 enough)
              (λ v s4 less4. eot_drains fuel m v.rx_code s4 less4 enough)))
          (stops soft)))

-- On a valid handle of a platform whose reads of a byte or more store no more than they are asked
-- for, on which only so many bytes are still to come and every read gives all the bytes that it
-- asks for or times out, with no error of the hardware, with a channel that stores no more than it
-- is asked for and a buffer as large as the mode's packet: with more fuel than bytes to come,
-- `xmodem_tx` returns. The code is no error, a cancellation, a channel error or a time-out, and the
-- buffer keeps its length.
pub xmodem_tx-IsTxCode :
    {P : Serprim} {h : Handle} {C : Type 0} (channel : OutputChannel C)
    → IsBounded P
    → (D : IsDraining P h) → ((n last : ℕ) (c : C) → length (channel n last c).bytes ≤ n)
    → (f : XferMode) (fuel : ℕ) (s : Session P C)
    → data_start + size_of f + trailer_size f ≤ length s.buffer
    → D.pending s.port < fuel
    → (e : ModemError) × (s' : Session P C) × (xmodem_tx h channel f fuel s ≡ ok e s')
      × IsTxCode e
      × IsSoft e
      × (length s'.buffer ≡ length s.buffer)
unfolding xmodem_tx
xmodem_tx-IsTxCode {h} channel B D fills f fuel s room enough =
    let (e, s', run, (code, same), soft) =
      value_of (xmodem_tx-TxEnds channel B fills h f fuel s room)
        (returned_lem (body_drains D channel f fuel (D.pending s.port) s (omega arith) enough)) in
    (e, s', run, code, soft, same)
