-- ===== src/Xmodem/Rx/Answers.antt =====
-- The answers of the receiver, where only so many bytes come and the hardware has no errors.
use libmodem.Modem.{
  ack, nak, can, data_start, block_no, comp_block_no, chksum_crc, ModemError, modem_no_errors,
  bad_crc_chksum, sent_can, packet_mismatch, channel_error, undefined_error, modem_hw_error,
  modem_timeout, not_implemented, is_xmodem, InputChannel, serial_to_modem_error,
}
use libmodem.Prelude.{
  ◌≡◌, ◌⊎◌, inl, inr, Bool, true, if◌then◌else◌, ℕ, zero, suc, ◌-◌, ◌≤◌, ◌<◌, false, not, ◌&&◌, [],
  ◌∷◌, ltb, ◌==◌, arith,
}
use libmodem.Prelude.Int.{pos}
use libmodem.Serial.{SerialStatus, serial_no_errors, serial_timeout}
use libmodem.Serial.Primitives.{Serprim, Handle}
use libmodem.Xmodem.Draining.{
  IsDraining, IsSoft, Ends, Left, Drained-left, Drained-early, load_keeps, load_byte_keeps,
  snd_drains, rcv_drains,
}
use libmodem.Xmodem.Returns.{returns, stops, bind, weaken, branch, by_error, by_lateness}
use libmodem.Xmodem.Rx.{RxVars, check_sum, deliver, check_packet, accept, respond}
use libmodem.Xmodem.Rx.Counter.{wraps}
use libmodem.Xmodem.Rx.Fresh.{InRound}
use libmodem.Xmodem.Session.{Session, pure, return, snd, ◌>>◌, to_unsigned}
use libmodem.Xmodem.Wait.{purge}

-- What the tests of a packet find on such a line.
abbrev pub IsVerdict : ModemError → Type 0
IsVerdict modem_no_errors = Unit
IsVerdict bad_crc_chksum = Unit
IsVerdict modem_timeout = Unit
IsVerdict sent_can = ⊥
IsVerdict packet_mismatch = ⊥
IsVerdict channel_error = ⊥
IsVerdict undefined_error = ⊥
IsVerdict modem_hw_error = ⊥
IsVerdict not_implemented = ⊥

tested : (b : Bool) → IsVerdict (if b then bad_crc_chksum else modem_no_errors)
tested true = tt
tested false = tt

known-IsVerdict :
    (status : SerialStatus)
    → (status ≡ serial_no_errors) ⊎ (status ≡ serial_timeout)
    → IsVerdict (serial_to_modem_error status)
unfolding serial_to_modem_error
known-IsVerdict status (inl e) = rw e tt
known-IsVerdict status (inr e) = rw e tt

module _ {P : Serprim} {h : Handle} (D : IsDraining P h) {C : Type 0} (wide : 16 ≤ P.int_bits) where
  pub cancel-Ends :
      {A : Type 0} (e : ModemError) (Q : A → Session P C → Type 0) (m : ℕ) (s : Session P C)
      → IsSoft e
      → Left D m s
      → Ends Q ((snd h (can ∷ []) >> return e) s)
  cancel-Ends e Q m s soft less = bind (snd_drains D m (can ∷ []) s less) (λ a s1 less1. stops soft)

  purge-Ends :
      (fuel m : ℕ) (s : Session P C)
      → Left D m s
      → m < fuel
      → Ends (λ u s'. Left D m s') (purge h fuel s)
  unfolding purge
  purge-Ends zero m s less enough = absurd (omega arith)
  purge-Ends (suc fuel) m s less enough =
      bind (rcv_drains D m 1 (pos 1) false s less) (λ r s1 (drained, same).
        by_lateness r.status _ _ s1 (λ late. returns (Drained-left D 1 m r s1 drained))
          (λ early.
            let fewer = Drained-early D 1 m r s1 drained early in
            weaken (purge-Ends fuel (D.pending s1.port) s1 (omega arith) (omega (arith, fewer)))
              (λ u s2 less2. omega (arith, less2, fewer))))

  pub check_packet-Ends :
      (fuel m : ℕ) (v : RxVars) (status : SerialStatus) (s : Session P C)
      → (status ≡ serial_no_errors) ⊎ (status ≡ serial_timeout)
      → Left D m s
      → m < fuel
      → Ends (λ e s'. IsVerdict e × Left D m s') (check_packet h fuel v status s)
  unfolding check_packet check_sum
  check_packet-Ends fuel m v status s known less enough =
      let J = λ (p : P.Port). D.pending p ≤ m in
      by_error status _ (λ other. purge h fuel >> pure (serial_to_modem_error other)) s
        (bind (load_byte_keeps J comp_block_no s less) (λ comp s1 less1.
          bind (load_byte_keeps J block_no s1 less1) (λ block s2 less2.
            branch (not (comp == v.expected_comp_block_no) && not (block == v.expected_block_no)) _
              _ s2 (λ lost. cancel-Ends packet_mismatch _ m s2 tt less2)
              (λ kept.
                branch (is_xmodem v.flags) _ _ s2
                  (λ plain.
                    bind (load_keeps J data_start (v.chksum_offset - data_start) s2 less2)
                      (λ octets s3 less3.
                        bind (load_byte_keeps J chksum_crc s3 less3)
                          (λ c s4 less4. returns (tested _, less4))))
                  (λ crc.
                    bind (load_keeps J data_start (v.packet_end - data_start) s2 less2)
                      (λ octets s3 less3. returns (tested _, less3)))))))
        (bind (purge-Ends fuel m s less enough)
          (λ u s1 less1. returns (known-IsVerdict status known, less1)))

  module _ (channel : InputChannel C) where
    pub respond-Ends :
        (status : ModemError) (m : ℕ) (v : RxVars) (s : Session P C)
        → IsVerdict status
        → InRound P.int_bits v
        → Left D m s
        → Ends (λ v' s'. InRound P.int_bits v' × Left D m s') (respond h channel status v s)
    unfolding respond accept deliver
    respond-Ends modem_no_errors m v s verdict round less =
        bind
          (bind (load_keeps (λ p. D.pending p ≤ m) data_start (v.chksum_offset - data_start) s less)
            (λ octets s1 less1. returns less1))
          (λ result s1 less1.
            branch (ltb (to_unsigned P.size_bits result) (v.chksum_offset - data_start)) _ _ s1
              (λ short. cancel-Ends channel_error _ m s1 tt less1)
              (λ all. bind (snd_drains D m (ack ∷ []) s1 less1) (λ a s2 (less2, same2).
                returns ((round.0, round.1, rw (wraps P.int_bits wide) (omega arith)), less2))))
    respond-Ends bad_crc_chksum m v s verdict round less =
        bind (snd_drains D m (nak ∷ []) s less) (λ a s1 (less1, same1). returns (round, less1))
    respond-Ends modem_timeout m v s verdict round less =
        bind (snd_drains D m (nak ∷ []) s less) (λ a s1 (less1, same1). returns (round, less1))
    respond-Ends sent_can m v s verdict round less = absurd verdict
    respond-Ends packet_mismatch m v s verdict round less = absurd verdict
    respond-Ends channel_error m v s verdict round less = absurd verdict
    respond-Ends undefined_error m v s verdict round less = absurd verdict
    respond-Ends modem_hw_error m v s verdict round less = absurd verdict
    respond-Ends not_implemented m v s verdict round less = absurd verdict
