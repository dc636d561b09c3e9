-- ===== src/Xmodem/Rx/Termination.antt =====
-- `xmodem_rx` ends where only so many bytes come and the hardware has no errors, with fuel for what
-- is still to come.
use libmodem.Modem.{
  eot, ack, data_start, block_no, ModemError, modem_timeout, XferMode, InputChannel,
}
use libmodem.Prelude.{
  ℕ, zero, suc, ◌+◌, ◌-◌, ◌%◌, ◌^◌, ◌≤◌, ◌<◌, ◌≡◌, refl, sym, ap, ◌∙◌, false, inl, inr, ◌||◌, [],
  ◌∷◌, length, ltb, ◌==◌, arith, subst,
}
use libmodem.Prelude.Int.{pos}
use libmodem.Serial.Primitives.{Serprim, Handle}
use libmodem.Xmodem.Draining.{
  IsDraining, IsSoft, Ends, Left, Drained-left, Drained-known, load_byte_keeps, store_keeps,
  snd_drains, rcv_drains,
}
use libmodem.Xmodem.Returns.{returns, bind, weaken, branch, by_lateness, returned_lem, value_of}
use libmodem.Xmodem.Rx.{
  RxVars, rx_start, fallback, adjust, wait_rounds, first_char_loop, rx_packet, rx_loop, rx_body,
  xmodem_rx,
}
use libmodem.Xmodem.Rx.Counter.{counts_on}
use libmodem.Xmodem.Frame.{size_of, trailer_size}
use libmodem.Xmodem.Safety.{IsBounded}
use libmodem.Xmodem.Rx.Fits.{IsRxCode}
use libmodem.Xmodem.Rx.Safety.{xmodem_rx-RxEnds}
use libmodem.Xmodem.Rx.Fresh.{
  InRound, IsQuiet, nul-IsQuiet, fallback-starts, adjust-starts, moved-InRound, rx_start-InRound,
  store-nul, Fresh, Fresh-left, read-Fresh, store-Fresh, load-Fresh, Fresh-moved, Fresh-kept,
  came_off,
}
use libmodem.Xmodem.Session.{Session, ok}
use libmodem.Xmodem.Rx.Answers.{cancel-Ends, check_packet-Ends, respond-Ends}

early_count : (a : ℕ) → ltb 11 a ≡ false → a ≤ 11
early_count a h = ground arith

-- The counter goes on below its limit.
next_count : (w a : ℕ) → 16 ≤ w → ltb 11 a ≡ false → (a + 1) % 2 ^ w ≤ 12
next_count w a wide early =
    omega (arith, early_count a early, counts_on w a wide (early_count a early))

module _ {P : Serprim} {h : Handle} (D : IsDraining P h) {C : Type 0} (wide : 16 ≤ P.int_bits) where
  first-Ends :
      (fuel tries m : ℕ) (v : RxVars) (s : Session P C)
      → InRound P.int_bits v
      → Fresh D m v s
      → (v.error_count + 1) % 2 ^ P.int_bits ≡ tries
      → 13 ≤ fuel + tries
      → Ends
          (λ v' s'. InRound P.int_bits v' × (1 + D.pending s'.port ≤ m))
          (first_char_loop h fuel v s)
  unfolding first_char_loop
  first-Ends zero tries m v s round fresh counted enough = absurd (omega arith)
  first-Ends (suc fuel) tries m v s round fresh counted enough =
      let w = P.int_bits in
      let count : ℕ = (v.error_count + 1) % 2 ^ w in
      let v1 = record v { error_count = count } in
      let v' = fallback v1 in
      let (e1, e2, e3) = fallback-starts v1 in
      branch (ltb 11 count) _ _ s
        (λ late. cancel-Ends D wide modem_timeout _ m s tt (Fresh-left D m v s fresh))
        (λ early.
          let on : InRound w v1 = (round.0, round.1, next_count w count wide early) in
          let round' : InRound w v' = moved-InRound w v1 v' (fallback-starts v1) on in
          let fresh' : Fresh D m v' s = Fresh-moved D m v v' s e1 e2 fresh in
          let again : (s' : Session P C)
              → Fresh D m v' s'
              → Ends (λ v'' s''. InRound w v'' × (1 + D.pending s''.port ≤ m))
                  (first_char_loop h fuel v' s') =
            λ s' f.
              first-Ends fuel (suc tries) m v' s' round' f
                (ap (λ (t : ℕ). (t + 1) % 2 ^ w) e3
                  ∙ counts_on w count wide (early_count count early)
                  ∙ ap suc counted)
                (omega arith) in
          bind (read-Fresh D m v' s fresh') (λ r s1 (f1, came).
            bind (store-Fresh D m v' r.bytes s1 f1 came) (λ u s2 f2.
              bind (load-Fresh D m v' s2 f2) (λ c s3 (f3, seen).
                branch ((c == v'.expected_start_char_2) || (c == v'.expected_start_char_1)) _ _ s3
                  (λ start. returns (round', came_off D m v' c s3 seen (inl start)))
                  (λ no_start.
                    branch (c == eot) _ _ s3
                      (λ end. returns (round', came_off D m v' c s3 seen (inr end)))
                      (λ no_end.
                        by_lateness r.status _ _ s3
                          (λ silent.
                            bind
                              (snd_drains D (D.pending s3.port) (v'.tx_code ∷ []) s3 (omega arith))
                              (λ a s4 (less4, same4).
                                again s4 (Fresh-kept D m v' s3 s4 less4 same4 f3)))
                          (λ noise. again s3 f3)))))))

  module _ (channel : InputChannel C) where
    loop-Ends :
        (fuel m : ℕ) (v : RxVars) (s : Session P C)
        → InRound P.int_bits v
        → Left D m s
        → m < fuel
        → Ends (λ v' s'. Left D m s') (rx_loop h channel fuel v s)
    unfolding rx_loop rx_packet
    loop-Ends zero m v s round less enough = absurd (omega arith)
    loop-Ends (suc fuel) m v s round less enough =
        bind (store-nul (λ p. D.pending p ≤ m) s less) (λ u s1 (e1, less1).
          let fresh = inr (less1, subst (IsQuiet v) (sym e1) (nul-IsQuiet P.int_bits v round)) in
          bind (first-Ends wait_rounds _ m v s1 round fresh refl (omega arith))
            (λ v1 s2 (round1, few).
              branch v1.eot_detected _ _ s2 (λ end. returns (omega (arith, few)))
                (λ more.
                  let k : ℕ = D.pending s2.port in
                  let J = λ (p : P.Port). D.pending p ≤ k in
                  bind
                    (bind (load_byte_keeps J 0 s2 (omega arith)) (λ c s3 less3.
                      let v2 = adjust c v1 in
                      let round2 = moved-InRound P.int_bits v1 v2 (adjust-starts c v1) round1 in
                      bind (rcv_drains D k (v2.packet_end - block_no) (pos 1) false s3 less3)
                        (λ r s4 (drained, same4).
                          let less4 = Drained-left D (v2.packet_end - block_no) k r s4 drained in
                          bind (store_keeps J 1 r.bytes s4 less4) (λ u5 s5 less5.
                            bind
                              (check_packet-Ends D wide fuel k v2 r.status s5
                                (Drained-known D (v2.packet_end - block_no) k r s4 drained) less5
                                (omega (arith, few)))
                              (λ status s6 (verdict, less6).
                                respond-Ends D wide channel status k v2 s6 verdict round2 less6)))))
                    (λ v7 s7 (round7, less7).
                      weaken (loop-Ends fuel k v7 s7 round7 less7 (omega (arith, few)))
                        (λ v8 s8 less8. omega (arith, few, less8))))))

    body-Ends :
        (f : XferMode) (fuel m : ℕ) (s : Session P C)
        → Left D m s
        → m < fuel
        → Ends (λ e s'. IsSoft e) (rx_body h channel f fuel s)
    unfolding rx_body
    body-Ends f fuel m s less enough = bind (snd_drains D m _ s less) (λ a s1 (less1, same1).
        bind
          (loop-Ends fuel m (rx_start P.int_bits f) s1 (rx_start-InRound P.int_bits f wide) less1
            enough)
          (λ v s2 less2. bind (snd_drains D m (ack ∷ []) s2 less2) (λ b s3 less3. returns tt)))

-- On a valid handle of a platform whose reads of a byte or more store no more than they are asked
-- for, on which only so many bytes are still to come and every read gives all the bytes that it
-- asks for or times out, with no error of the hardware, with an `unsigned int` of 16 bits or more
-- and a buffer as large as the mode's packet: with more fuel than bytes to come, `xmodem_rx`
-- returns, whatever the channel does. The code is no error, a packet mismatch, a channel error or a
-- time-out, and the buffer keeps its length.
pub xmodem_rx-IsRxCode :
    {P : Serprim} {h : Handle} {C : Type 0} (channel : InputChannel C)
    → IsBounded P
    → (D : IsDraining P h) → 16 ≤ P.int_bits
    → (f : XferMode) (fuel : ℕ) (s : Session P C)
    → data_start + size_of f + trailer_size f ≤ length s.buffer
    → D.pending s.port < fuel
    → (e : ModemError) × (s' : Session P C) × (xmodem_rx h channel f fuel s ≡ ok e s')
      × IsRxCode e
      × IsSoft e
      × (length s'.buffer ≡ length s.buffer)
unfolding xmodem_rx
xmodem_rx-IsRxCode {h} channel B D wide f fuel s room enough =
    let (e, s', run, (code, same), soft) =
      value_of (xmodem_rx-RxEnds channel B h f fuel s room) (
        returned_lem (body-Ends D wide channel f fuel (D.pending s.port) s (omega arith) enough)) in
    (e, s', run, code, soft, same)
