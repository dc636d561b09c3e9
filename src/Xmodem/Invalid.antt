-- ===== src/Xmodem/Invalid.antt =====
-- `xmodem_tx` and `xmodem_rx` of src/xmodem.c on a handle that is not valid.
use libmodem.Modem.{
  nul, nak, can, modem_timeout, modem_hw_error, OutputChannel, InputChannel, XferMode, xmodem,
  xmodem_crc, xmodem_1k, serial_to_modem_error,
}
use libmodem.Prelude.{
  ℕ, zero, suc, ◌+◌, ◌-◌, ◌%◌, ◌^◌, ◌≤◌, ◌≡◌, refl, ap, ◌∙◌, inl, inr, Bool, Bool-cases, true,
  false, none, List, [], ◌∷◌, ltb, arith,
}
use libmodem.Prelude.Int.{ℤ, pos}
use libmodem.Serial.{serial_hw_error, serial_snd, serial_rcv, serial_flush}
use libmodem.Serial.Primitives.{Serprim, Handle}
use libmodem.Xmodem.Buffer.{at, load_ok, store_ok}
use libmodem.Xmodem.Frame.{start_of}
use libmodem.Xmodem.Rx.{wait_rounds, fallback, first_char_loop, rx_loop, rx_start, xmodem_rx}
use libmodem.Xmodem.Rx.Counter.{counts_on, wraps}
use libmodem.Xmodem.Rx.First.{vars, rx_start-vars, untrue}
use libmodem.Xmodem.Rx.Looks.{round-look}
use libmodem.Xmodem.Rx.Rounds.{resume, rx_loop-resume}
use libmodem.Xmodem.Rx.Transcript.Outcome.{nul-IsIdle}
use libmodem.Xmodem.Session.{Session, ok, and_then, stop, snd, rcv, flush, load_byte, to_signed}
use libmodem.Xmodem.Tx.{xmodem_tx}
use libmodem.Xmodem.Wait.{ready_loop}

-- With or without the fallback the variables are those of a mode.
fallback-cases :
    (f : XferMode) (small : Bool) (n tx tries : ℕ)
    → (g : XferMode) × (tx' : ℕ) × (fallback (vars f small n tx tries false)
        ≡ vars g small n tx' tries false)
unfolding fallback
fallback-cases xmodem small n tx tries = (xmodem, tx, refl)
fallback-cases xmodem_crc small n tx tries = elim (Bool-cases (ltb 2 tries)) [
  | inl e ↦ (xmodem, nak, rw e refl)
  | inr e ↦ (xmodem_crc, tx, rw e refl)
]
fallback-cases xmodem_1k small n tx tries = (xmodem_1k, tx, refl)

module _ {P : Serprim} (h : Handle) (invalid : P.handle_valid h ≡ false) {C : Type 0} where
  snd_inert : (xs : List ℕ) (s : Session P C) → snd h xs s ≡ ok serial_hw_error s
  unfolding snd serial_snd
  snd_inert xs s = rw invalid refl

  flush_inert : (s : Session P C) → flush h s ≡ ok serial_hw_error s
  unfolding flush serial_flush
  flush_inert s = rw invalid refl

  rcv_inert :
      (timeout : ℤ) (timed : Bool) (s : Session P C)
      → rcv h 1 timeout timed s
        ≡ ok (record { status = serial_hw_error; bytes = []; time_spent = none; port = s.port }) s
  unfolding rcv serial_rcv
  rcv_inert timeout timed s = rw invalid refl

  -- The wait for a first character is in vain.
  waits_in_vain :
      (k : ℕ) (f : XferMode) (small : Bool) (n tx err tries : ℕ) (rest : List ℕ) (c : C)
      (p : P.Port)
      → 16 ≤ P.int_bits
      → (err + 1) % 2 ^ P.int_bits ≡ tries
      → 13 ≤ k + tries
      → tries ≤ 12
      → first_char_loop h k (vars f small n tx err false) (at P (nul ∷ rest) c p)
        ≡ stop modem_timeout (at P (nul ∷ rest) c p)
  unfolding first_char_loop load_byte
  waits_in_vain zero f small n tx err tries rest c p wide counted left few = absurd (omega arith)
  waits_in_vain (suc k) f small n tx err tries rest c p wide counted left few =
      elim (Bool-cases (ltb 11 tries)) [
        | inl many ↦ rw (counted, many, snd_inert (can ∷ []) (at P (nul ∷ rest) c p)) refl
        | inr soon ↦
            let (g, tx', kept) = fallback-cases f small n tx tries in
            let (q1, q2, q3) = nul-IsIdle g in
            round-look h k (vars f small n tx err false) (vars g small n tx' tries false)
              (at P (nul ∷ rest) c p) (ap (ltb 11) counted ∙ soon)
              (ap (λ (t : ℕ). fallback (vars f small n tx t false)) counted ∙ kept)
            ∙ rw
                (
                  rcv_inert (pos 10) false (at P (nul ∷ rest) c p),
                  store_ok {P = P} c p [] [] (nul ∷ rest) 0 [] refl refl,
                  load_ok {P = P} c p [] (nul ∷ []) rest 0 1 refl refl,
                  untrue nul (start_of g) q2,
                )
                (waits_in_vain k g small n tx' tries (suc tries) rest c p wide
                  (counts_on P.int_bits tries wide (ground arith)) (omega arith) (ground arith))
      ]

  -- A reception on such a handle.
  reception_inert :
      (sink : InputChannel C) (f : XferMode) (fuel b : ℕ) (rest : List ℕ) (c : C) (p : P.Port)
      → 16 ≤ P.int_bits
      → xmodem_rx h sink f (suc fuel) (at P (b ∷ rest) c p)
        ≡ ok modem_timeout (at P (nul ∷ rest) c p)
  unfolding xmodem_rx
  reception_inert sink f fuel b rest c p wide =
      let v = rx_start P.int_bits f in
      let v' = vars f false 1 v.tx_code (2 ^ P.int_bits - 1) false in
      let run : rx_loop h sink (suc fuel) v (at P (b ∷ rest) c p)
          ≡ stop modem_timeout (at P (nul ∷ rest) c p) =
        ap (λ t. rx_loop h sink (suc fuel) t (at P (b ∷ rest) c p)) (rx_start-vars P.int_bits f)
        ∙ rx_loop-resume {P = P} h sink fuel v' b rest c p
        ∙ ap (λ t. and_then t (resume h sink fuel))
            (waits_in_vain wait_rounds f false 1 v.tx_code (2 ^ P.int_bits - 1) 0 rest c p wide
              (wraps P.int_bits wide) (omega arith) (omega arith)) in
      rw (snd_inert (v.tx_code ∷ []) (at P (b ∷ rest) c p), run) refl

  -- A transmission on such a handle.
  transmission_inert :
      (source : OutputChannel C) (f : XferMode) (fuel : ℕ) (s : Session P C)
      → xmodem_tx h source f (suc fuel) s ≡ ok modem_hw_error s
  unfolding xmodem_tx ready_loop serial_to_modem_error
  transmission_inert source f fuel s =
      let w : ℕ = P.int_bits in
      rw (flush_inert s, rcv_inert (to_signed w ((60 + 2 ^ w - 0) % 2 ^ w)) true s) refl

-- On a handle that is not valid, with an `unsigned int` of 16 bits or more, a receiver's buffer of
-- at least one byte and fuel for one round: `xmodem_tx` returns MODEM_HW_ERROR, and `xmodem_rx`
-- returns MODEM_TIMEOUT; the port and the channels are as before, and of the buffers only the
-- receiver's first byte is cleared.
pub transfers_inert :
    {P : Serprim} {C D : Type 0} (h : Handle) (source : OutputChannel C) (sink : InputChannel D)
    (f : XferMode) (fuel b : ℕ) (rest : List ℕ) (s : Session P C) (d : D) (p : P.Port)
    → P.handle_valid h ≡ false
    → 16 ≤ P.int_bits
    → (xmodem_tx h source f (suc fuel) s ≡ ok modem_hw_error s)
      × (xmodem_rx h sink f (suc fuel) (at P (b ∷ rest) d p)
          ≡ ok modem_timeout (at P (nul ∷ rest) d p))
transfers_inert {P} h source sink f fuel b rest s d p invalid wide = (
  transmission_inert {P = P} h invalid source f fuel s,
  reception_inert {P = P} h invalid sink f fuel b rest d p wide,
)
