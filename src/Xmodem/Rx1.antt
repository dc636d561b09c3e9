-- ===== src/Xmodem/Rx1.antt =====
-- `xmodem_rx1` of src/xmodem.c, the start of another receiver, with the two private functions that
-- stand in for what it lacks. Its loop takes fuel, one unit a round.
use libmodem.Modem.{
  nak, ack, ascii_c, chksum_crc, x1k_crc, ModemError, modem_no_errors, XferMode, is_xmodem,
  is_xmodem_1k,
}
use libmodem.Prelude.{ℕ, zero, suc, ◌≡◌, refl, Bool, true, false, [], ◌∷◌, if◌then◌else◌}
use libmodem.Serial.Primitives.{Serprim, Handle}
use libmodem.Xmodem.Session.{Session, Run, out_of_fuel, returned, ◌>>=◌, ◌>>◌, pure, return, snd}

unfoldable get_checksum_offset : XferMode → ℕ
get_checksum_offset flags = if is_xmodem_1k flags then x1k_crc else chksum_crc

module _ {P : Serprim} {C : Type 0} (serial_device : Handle) where
  unfoldable wait_for_tx_response : XferMode → Session P C → Run (Session P C) ModemError
  wait_for_tx_response flags = pure modem_no_errors

  -- `eot_detected` is the variable that ends the loop.
  unfoldable rx1_loop : ℕ → XferMode → Bool → Session P C → Run (Session P C) (Unit {0})
  unfolding wait_for_tx_response
  rx1_loop zero flags eot_detected = λ _. out_of_fuel
  rx1_loop (suc fuel) flags eot_detected = do
    status ← wait_for_tx_response flags
    elim status [
      | modem_no_errors ↦ elim eot_detected [ true ↦ pure tt | false ↦ rx1_loop fuel flags false ]
      | other ↦ return other
    ]

  unfoldable pub xmodem_rx1 : XferMode → ℕ → Session P C → Run (Session P C) ModemError
  unfolding rx1_loop
  xmodem_rx1 flags fuel s = returned (
      (do
        snd serial_device ((if is_xmodem flags then nak else ascii_c) ∷ [])
        rx1_loop fuel flags false
        snd serial_device (ack ∷ [])
        pure modem_no_errors)
        s)

  rx1_loop-spends :
      (fuel : ℕ) (flags : XferMode) (s : Session P C) → rx1_loop fuel flags false s ≡ out_of_fuel
  unfolding rx1_loop
  rx1_loop-spends zero flags s = refl
  rx1_loop-spends (suc fuel) flags s = rx1_loop-spends fuel flags s

  -- No fuel is enough for `xmodem_rx1`, on any platform and in any mode.
  pub xmodem_rx1-stuck :
      (flags : XferMode) (fuel : ℕ) (s : Session P C) → xmodem_rx1 flags fuel s ≡ out_of_fuel
  unfolding xmodem_rx1 snd
  xmodem_rx1-stuck flags fuel s = rw (rx1_loop-spends fuel flags _) refl
