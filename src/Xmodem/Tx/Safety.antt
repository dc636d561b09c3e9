-- ===== src/Xmodem/Tx/Safety.antt =====
-- `xmodem_tx` never reaches out of a buffer of the size that src/modem.h asks for, and returns only
-- the codes of a transmitter, on every platform and whatever arrives.
use libmodem.Modem.{
  data_start, nul, start_char, eot, ack, nak, can, ModemError, modem_no_errors, sent_can, XferMode,
  is_xmodem, is_xmodem_1k, is_xmodem_crc, ascii_c, OutputChannel, serial_to_modem_error,
}
use libmodem.Prelude.{
  ℕ, zero, suc, ◌+◌, ◌%◌, ◌^◌, ◌≤◌, ◌≡◌, refl, Bool, true, false, ◌&&◌, ◌||◌, [], ◌∷◌, length, ◌==◌,
  if◌then◌else◌, arith,
}
use libmodem.Prelude.Int.{pos}
use libmodem.Serial.{serial_no_errors}
use libmodem.Serial.Primitives.{Serprim, Handle}
use libmodem.Xmodem.Frame.{size_of, trailer_size}
use libmodem.Xmodem.Returns.{
  Returns, returns, stops, spent, bind, branch, by_code, by_status, returned_lem,
}
use libmodem.Xmodem.Safety.{IsBounded, load_safe, store_safe, snd_safe, flush_safe, rcv_safe}
use libmodem.Xmodem.Session.{Session, Run, pure, return, to_unsigned}
use libmodem.Xmodem.Tx.{
  TxVars, header, tx_start, send_and_wait, eot_loop, tx_round, packet_loop, tx_body, xmodem_tx,
}
use libmodem.Xmodem.Wait.{ready_loop, wait_for_rx_ready, received_char, seconds}
use libmodem.Xmodem.Tx.Fits.{
  IsTxCode, TxEnds, TxFits, IsTxCode-status, tx_start-TxFits, seal_safe, interpret_safe, fill_safe,
}

module _ {P : Serprim} {C : Type 0} (B : IsBounded P) (N : ℕ) (h : Handle) where
  send_safe :
      (size : ℕ) (v : TxVars) (s : Session P C)
      → TxFits N v
      → size ≤ N
      → length s.buffer ≡ N
      → Returns
          (λ v' s'. TxFits N v' × (length s'.buffer ≡ N))
          (TxEnds N)
          (Unit {0})
          ⊥
          (send_and_wait h size v s)
  unfolding send_and_wait
  send_safe size v s fits small e =
      bind (load_safe N start_char size s e (omega arith)) (λ packet s1 e1.
        bind (snd_safe N h packet s1 e1) (λ a s2 e2. bind (flush_safe N h s2 e2) (λ b s3 e3.
          bind (rcv_safe B N h 1 (pos 60) false s3 (omega arith) e3) (λ r s4 (e4, few).
            by_status r.status _ _ s4 (λ good. returns (fits, e4))
              (λ bad. stops (IsTxCode-status r.status, e4))))))

  eot_safe :
      (fuel rx_code : ℕ) (s : Session P C)
      → length s.buffer ≡ N
      → Returns (TxEnds N) (TxEnds N) (Unit {0}) ⊥ (eot_loop h fuel rx_code s)
  unfolding eot_loop
  eot_safe zero rx_code s e = spent tt
  eot_safe (suc fuel) rx_code s e = bind (snd_safe N h (eot ∷ []) s e) (λ a s1 e1.
      bind (rcv_safe B N h 1 (pos 60) false s1 (omega arith) e1) (λ r s2 (e2, few).
        let code = received_char rx_code r.bytes in
        by_status r.status _ _ s2
          (λ good.
            branch ((code == ack) || (code == can)) _ _ s2
              (λ known. returns (ended (code == ack), e2)) (λ other. eot_safe fuel code s2 e2))
          (λ bad. stops (IsTxCode-status r.status, e2))))
    where
      ended : (b : Bool) → IsTxCode (if b then modem_no_errors else sent_can)
      ended true = tt
      ended false = tt

  ready_safe :
      (f : XferMode) (fuel elapsed_time rx_code : ℕ) (s : Session P C)
      → length s.buffer ≡ N
      → Returns (TxEnds N) (TxEnds N) (Unit {0}) ⊥ (ready_loop h f fuel elapsed_time rx_code s)
  unfolding ready_loop
  ready_safe f zero elapsed_time rx_code s e = spent tt
  ready_safe f (suc fuel) elapsed_time rx_code s e =
      bind (rcv_safe B N h 1 _ true s (omega arith) e) (λ r s1 (e1, few).
        let code = received_char rx_code r.bytes in
        let elapsed =
          (elapsed_time + to_unsigned P.int_bits (seconds r.time_spent)) % 2 ^ P.int_bits in
        let found : Session P C → Run (Session P C) ModemError =
          pure (serial_to_modem_error serial_no_errors) in
        let again : Session P C → Run (Session P C) ModemError = ready_loop h f fuel elapsed code in
        let asked : Bool = is_xmodem f && (code == nak) in
        by_status r.status _ _ s1
          (λ good.
            branch ((is_xmodem_1k f || is_xmodem_crc f) && (code == ascii_c)) found
              (if asked then found else again) s1
              (λ yes_crc. returns (IsTxCode-status serial_no_errors, e1))
              (λ no_crc.
                branch asked found again s1
                  (λ yes_nak. returns (IsTxCode-status serial_no_errors, e1))
                  (λ noise. ready_safe f fuel elapsed code s1 e1)))
          (λ bad. returns (IsTxCode-status r.status, e1)))

  module _ (channel : OutputChannel C)
      (fills : (n last : ℕ) (c : C) → length (channel n last c).bytes ≤ n) where
    packet_safe :
        (fuel : ℕ) (v : TxVars) (s : Session P C)
        → TxFits N v
        → length s.buffer ≡ N
        → Returns
            (λ v' s'. TxFits N v' × (length s'.buffer ≡ N))
            (TxEnds N)
            (Unit {0})
            ⊥
            (packet_loop h channel fuel v s)
    unfolding packet_loop tx_round
    packet_safe zero v s fits e = spent tt
    packet_safe (suc fuel) v s fits e =
        bind
          (bind (fill_safe N channel v s fills (fits, e)) (λ v1 s1 (fits1, e1).
            bind (seal_safe N v1 s1 (fits1, e1)) (λ u s2 e2.
              bind (send_safe v1.packet_size v1 s2 fits1 (omega arith) e2)
                (λ v2 s3 ready. interpret_safe N v2 s3 ready))))
          (λ v' s' (fits', e').
            branch v'.eof_detected _ _ s' (λ done. returns (fits', e'))
              (λ more. packet_safe fuel v' s' fits' e'))

    body_safe :
        (f : XferMode) (fuel : ℕ) (s : Session P C)
        → data_start + size_of f + trailer_size f ≤ N
        → length s.buffer ≡ N
        → Returns (TxEnds N) (TxEnds N) (Unit {0}) ⊥ (tx_body h channel f fuel s)
    unfolding tx_body wait_for_rx_ready header
    body_safe f fuel s room e = bind (flush_safe N h s e) (λ a s1 e1.
        bind (ready_safe f fuel 0 nul s1 e1) (λ status s2 (code, e2).
          by_code status _ (λ other. return other) s2
            (bind (store_safe N start_char (header f) s2 e2 (omega arith)) (λ u s3 e3.
              bind (packet_safe fuel (tx_start f) s3 (tx_start-TxFits N f room) e3)
                (λ v s4 (fits, e4). eot_safe fuel v.rx_code s4 e4)))
            (stops (code, e2))))

-- On every platform whose reads of a byte or more store no more than they are asked for, on any
-- line and with a channel that stores no more than it is asked for: with a buffer as large as the
-- mode's packet, `xmodem_tx` never reaches out of the buffer and keeps its length, and where it
-- returns, it returns no error, a cancellation, a channel error, a hardware error or a time-out.
pub xmodem_tx-TxEnds :
    {P : Serprim} {C : Type 0} (channel : OutputChannel C)
    → IsBounded P
    → ((n last : ℕ) (c : C) → length (channel n last c).bytes ≤ n)
    → (h : Handle) (f : XferMode) (fuel : ℕ) (s : Session P C)
    → data_start + size_of f + trailer_size f ≤ length s.buffer
    → Returns (TxEnds (length s.buffer)) (λ e s'. ⊥) (Unit {0}) ⊥ (xmodem_tx h channel f fuel s)
unfolding xmodem_tx
xmodem_tx-TxEnds channel B fills h f fuel s room =
    returned_lem (body_safe B (length s.buffer) h channel fills f fuel s room refl)
