-- ===== src/Xmodem/Rx/Safety.antt =====
-- `xmodem_rx` never reaches out of a buffer of the size that src/modem.h asks for, and returns only
-- the codes of a receiver, on every platform and whatever arrives.
use libmodem.Modem.{
  nul, eot, ack, nak, can, data_start, block_no, comp_block_no, chksum_crc, ModemError,
  modem_no_errors, bad_crc_chksum, sent_can, packet_mismatch, channel_error, undefined_error,
  modem_hw_error, modem_timeout, not_implemented, XferMode, is_xmodem, InputChannel,
  serial_to_modem_error,
}
use libmodem.Prelude.{
  ℕ, zero, suc, ◌+◌, ◌-◌, ◌%◌, ◌^◌, ◌≤◌, ◌≡◌, refl, false, not, ◌&&◌, ◌||◌, [], ◌∷◌, length, ltb,
  ◌==◌, arith,
}
use libmodem.Prelude.Int.{pos}
use libmodem.Serial.{SerialStatus}
use libmodem.Serial.Primitives.{Serprim, Handle}
use libmodem.Xmodem.Frame.{size_of, trailer_size}
use libmodem.Xmodem.Returns.{
  Returns, returns, stops, spent, bind, branch, by_error, by_lateness, returned_lem,
}
use libmodem.Xmodem.Rx.{
  RxVars, rx_start, fallback, adjust, wait_rounds, check_sum, deliver, first_char_loop,
  check_packet, accept, respond, rx_packet, rx_loop, rx_body, xmodem_rx,
}
use libmodem.Xmodem.Rx.Fits.{
  IsRxCode, RxEnds, RxFits, least_room, rx_start-RxFits, fallback-RxFits, adjust-RxFits,
}
use libmodem.Xmodem.Safety.{
  IsBounded, Holds, load_safe, load_byte_safe, store_safe, snd_safe, rcv_safe,
}
use libmodem.Xmodem.Session.{Session, pure, return, snd, ◌>>◌, to_unsigned}
use libmodem.Xmodem.Wait.{purge}

module _ {P : Serprim} {C : Type 0} (B : IsBounded P) (N : ℕ) (h : Handle) where
  check_sum_safe :
      (v : RxVars) (s : Session P C)
      → RxFits N v
      → length s.buffer ≡ N
      → Returns (Holds N) (RxEnds N) (Unit {0}) ⊥ (check_sum v s)
  unfolding check_sum
  check_sum_safe v s fits e =
      let low = least_room v.flags N fits.0 in
      branch (is_xmodem v.flags) _ _ s
        (λ plain.
          bind (load_safe N data_start (v.chksum_offset - data_start) s e (omega arith))
            (λ octets s1 e1.
              bind (load_byte_safe N chksum_crc s1 e1 (omega arith)) (λ c s2 e2. returns e2)))
        (λ crc.
          bind (load_safe N data_start (v.packet_end - data_start) s e (omega arith))
            (λ octets s1 e1. returns e1))

  purge_safe :
      (fuel : ℕ) (s : Session P C)
      → length s.buffer ≡ N
      → Returns (Holds N) (RxEnds N) (Unit {0}) ⊥ (purge h fuel s)
  unfolding purge
  purge_safe zero s e = spent tt
  purge_safe (suc fuel) s e =
      bind (rcv_safe B N h 1 (pos 1) false s (omega arith) e) (λ r s1 (e1, few).
        by_lateness r.status _ _ s1 (λ late. returns e1) (λ early. purge_safe fuel s1 e1))

  -- A CAN, and an early return.
  cancel_safe :
      {A : Type 0} (e : ModemError) (Q : A → Session P C → Type 0) (s : Session P C)
      → IsRxCode e
      → length s.buffer ≡ N
      → Returns Q (RxEnds N) (Unit {0}) ⊥ ((snd h (can ∷ []) >> return e) s)
  cancel_safe e Q s code same = bind (snd_safe N h (can ∷ []) s same) (λ a s1 e1. stops (code, e1))

  check_packet_safe :
      (fuel : ℕ) (v : RxVars) (status : SerialStatus) (s : Session P C)
      → RxFits N v
      → length s.buffer ≡ N
      → Returns (Holds N) (RxEnds N) (Unit {0}) ⊥ (check_packet h fuel v status s)
  unfolding check_packet
  check_packet_safe fuel v status s fits e =
      let low = least_room v.flags N fits.0 in
      by_error status _ (λ other. purge h fuel >> pure (serial_to_modem_error other)) s
        (bind (load_byte_safe N comp_block_no s e (omega arith)) (λ comp s1 e1.
          bind (load_byte_safe N block_no s1 e1 (omega arith)) (λ block s2 e2.
            branch (not (comp == v.expected_comp_block_no) && not (block == v.expected_block_no)) _
              _ s2 (λ lost. cancel_safe packet_mismatch (Holds N) s2 tt e2)
              (λ kept. check_sum_safe v s2 fits e2))))
        (bind (purge_safe fuel s e) (λ u s1 e1. returns e1))

  first_safe :
      (fuel : ℕ) (v : RxVars) (s : Session P C)
      → RxFits N v
      → length s.buffer ≡ N
      → Returns
          (λ v' s'. RxFits N v' × (length s'.buffer ≡ N))
          (RxEnds N)
          (Unit {0})
          ⊥
          (first_char_loop h fuel v s)
  unfolding first_char_loop
  first_safe zero v s fits e = spent tt
  first_safe (suc fuel) v s fits e =
      let count : ℕ = (v.error_count + 1) % 2 ^ P.int_bits in
      let v' = fallback (record v { error_count = count }) in
      let fits' = fallback-RxFits N (record v { error_count = count }) fits in
      let low = least_room v.flags N fits.0 in
      branch (ltb 11 count) _ _ s (λ late. cancel_safe modem_timeout _ s tt e)
        (λ early. bind (rcv_safe B N h 1 (pos 10) false s (omega arith) e) (λ r s1 (e1, few).
          bind (store_safe N 0 r.bytes s1 e1 (omega arith)) (λ u s2 e2.
            bind (load_byte_safe N 0 s2 e2 (omega arith)) (λ c s3 e3.
              branch ((c == v'.expected_start_char_2) || (c == v'.expected_start_char_1)) _ _ s3
                (λ start. returns (fits', e3))
                (λ no_start.
                  branch (c == eot) _ _ s3 (λ end. returns (fits', e3))
                    (λ no_end.
                      by_lateness r.status _ _ s3
                        (λ silent.
                          bind (snd_safe N h (v'.tx_code ∷ []) s3 e3)
                            (λ a s4 e4. first_safe fuel v' s4 fits' e4))
                        (λ noise. first_safe fuel v' s3 fits' e3)))))))

  module _ (channel : InputChannel C) where
    respond_safe :
        (status : ModemError) (v : RxVars) (s : Session P C)
        → RxFits N v
        → length s.buffer ≡ N
        → Returns
            (λ v' s'. RxFits N v' × (length s'.buffer ≡ N))
            (RxEnds N)
            (Unit {0})
            ⊥
            (respond h channel status v s)
    unfolding respond accept deliver
    respond_safe modem_no_errors v s fits e =
        let low = least_room v.flags N fits.0 in
        bind
          (bind (load_safe N data_start (v.chksum_offset - data_start) s e (omega arith))
            (λ octets s1 e1. returns e1))
          (λ result s1 e1.
            branch (ltb (to_unsigned P.size_bits result) (v.chksum_offset - data_start)) _ _ s1
              (λ short. cancel_safe channel_error _ s1 tt e1)
              (λ all. bind (snd_safe N h (ack ∷ []) s1 e1) (λ a s2 e2. returns (fits, e2))))
    respond_safe bad_crc_chksum v s fits e =
        bind (snd_safe N h (nak ∷ []) s e) (λ a s1 e1. returns (fits, e1))
    respond_safe modem_timeout v s fits e =
        bind (snd_safe N h (nak ∷ []) s e) (λ a s1 e1. returns (fits, e1))
    respond_safe sent_can v s fits e = cancel_safe undefined_error _ s tt e
    respond_safe packet_mismatch v s fits e = cancel_safe undefined_error _ s tt e
    respond_safe channel_error v s fits e = cancel_safe undefined_error _ s tt e
    respond_safe undefined_error v s fits e = cancel_safe undefined_error _ s tt e
    respond_safe modem_hw_error v s fits e = cancel_safe undefined_error _ s tt e
    respond_safe not_implemented v s fits e = cancel_safe undefined_error _ s tt e

    loop_safe :
        (fuel : ℕ) (v : RxVars) (s : Session P C)
        → RxFits N v
        → length s.buffer ≡ N
        → Returns
            (λ v' s'. RxFits N v' × (length s'.buffer ≡ N))
            (RxEnds N)
            (Unit {0})
            ⊥
            (rx_loop h channel fuel v s)
    unfolding rx_loop rx_packet
    loop_safe zero v s fits e = spent tt
    loop_safe (suc fuel) v s fits e =
        let low = least_room v.flags N fits.0 in
        bind (store_safe N 0 (nul ∷ []) s e (omega arith)) (λ u s1 e1.
          bind (first_safe wait_rounds v s1 fits e1) (λ v1 s2 (fits1, e2).
            let low1 = least_room v1.flags N fits1.0 in
            branch v1.eot_detected _ _ s2 (λ end. returns (fits1, e2))
              (λ more.
                bind
                  (bind (load_byte_safe N 0 s2 e2 (omega arith)) (λ c s3 e3.
                    let v2 = adjust c v1 in
                    let fits2 = adjust-RxFits N c v1 fits1 in
                    bind
                      (rcv_safe B N h (v2.packet_end - block_no) (pos 1) false s3 (omega arith) e3)
                      (λ r s4 (e4, few).
                        bind (store_safe N 1 r.bytes s4 e4 (omega arith)) (λ u5 s5 e5.
                          bind (check_packet_safe fuel v2 r.status s5 fits2 e5)
                            (λ status s6 e6. respond_safe status v2 s6 fits2 e6)))))
                  (λ v7 s7 (fits7, e7). loop_safe fuel v7 s7 fits7 e7))))

    body_safe :
        (f : XferMode) (fuel : ℕ) (s : Session P C)
        → data_start + size_of f + trailer_size f ≤ N
        → length s.buffer ≡ N
        → Returns (RxEnds N) (RxEnds N) (Unit {0}) ⊥ (rx_body h channel f fuel s)
    unfolding rx_body
    body_safe f fuel s room e = bind (snd_safe N h _ s e) (λ a s1 e1.
        bind (loop_safe fuel (rx_start P.int_bits f) s1 (rx_start-RxFits P.int_bits N f room) e1)
          (λ v s2 (fits, e2). bind (snd_safe N h (ack ∷ []) s2 e2) (λ b s3 e3. returns (tt, e3))))

-- On every platform whose reads of a byte or more store no more than they are asked for, on any
-- line and with any channel: with a buffer as large as the mode's packet, `xmodem_rx` never reaches
-- out of the buffer and keeps its length, and where it returns, it returns no error, a packet
-- mismatch, a channel error, an undefined error or a time-out.
pub xmodem_rx-RxEnds :
    {P : Serprim} {C : Type 0} (channel : InputChannel C)
    → IsBounded P
    → (h : Handle) (f : XferMode) (fuel : ℕ) (s : Session P C)
    → data_start + size_of f + trailer_size f ≤ length s.buffer
    → Returns (RxEnds (length s.buffer)) (λ e s'. ⊥) (Unit {0}) ⊥ (xmodem_rx h channel f fuel s)
unfolding xmodem_rx
xmodem_rx-RxEnds channel B h f fuel s room =
    returned_lem (body_safe B (length s.buffer) h channel f fuel s room refl)
