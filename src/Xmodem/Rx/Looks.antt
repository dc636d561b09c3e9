-- ===== src/Xmodem/Rx/Looks.antt =====
-- A round of the wait of `xmodem_rx` for a first character, on any platform.
use libmodem.Modem.{eot}
use libmodem.Prelude.{
  ℕ, suc, ◌+◌, ◌%◌, ◌^◌, ◌≡◌, ap, true, false, [], ◌∷◌, ltb, ◌==◌, ◌||◌, if◌then◌else◌,
}
use libmodem.Prelude.Int.{pos}
use libmodem.Serial.{serial_timeout}
use libmodem.Serial.Primitives.{Serprim, Handle}
use libmodem.Xmodem.Rx.{RxVars, fallback, first_char_loop}
use libmodem.Xmodem.Session.{Session, Run, ◌>>=◌, ◌>>◌, pure, store, load_byte, snd, rcv}

module _ {P : Serprim} (h : Handle) {C : Type 0} where
  -- A round of the wait, from the read on.
  abbrev pub look : ℕ → RxVars → Session P C → Run (Session P C) RxVars
  look fuel v = do
    r ← rcv h 1 (pos 10) false
    store 0 r.bytes
    c ← load_byte 0
    if (c == v.expected_start_char_2) || (c == v.expected_start_char_1)
        then pure v
        else if c == eot
        then pure (record v { eot_detected = true })
        else (elim r.status [
          | serial_timeout ↦ (do snd h (v.tx_code ∷ []); first_char_loop h fuel v)
          | other ↦ first_char_loop h fuel v
        ])

  -- A round that begins: the counter is raised, and XMODEM-CRC may become XMODEM.
  pub round-look :
      (fuel : ℕ) (v w : RxVars) (s : Session P C)
      → ltb 11 ((v.error_count + 1) % 2 ^ P.int_bits) ≡ false
      → fallback (record v { error_count = (v.error_count + 1) % 2 ^ P.int_bits }) ≡ w
      → first_char_loop h (suc fuel) v s ≡ look fuel w s
  unfolding first_char_loop
  round-look fuel v w s few e = rw few (ap (λ t. look fuel t s) e)
