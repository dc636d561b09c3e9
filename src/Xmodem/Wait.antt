-- ===== src/Xmodem/Wait.antt =====
-- `wait_for_rx_ready` and `purge` of src/xmodem.c: the waits of the transmitter for the receiver,
-- and of the receiver for a quiet line. Each loop takes fuel, one unit a round.
use libmodem.Modem.{
  nul, nak, ascii_c, ModemError, XferMode, is_xmodem, is_xmodem_crc, is_xmodem_1k,
  serial_to_modem_error,
}
use libmodem.Prelude.{
  ℕ, zero, suc, ◌+◌, ◌-◌, ◌%◌, ◌^◌, true, false, ◌&&◌, ◌||◌, Option, none, some, List, [], ◌∷◌,
  ◌==◌, if◌then◌else◌,
}
use libmodem.Prelude.Int.{ℤ, pos}
use libmodem.Serial.{serial_no_errors, serial_timeout}
use libmodem.Serial.Primitives.{Serprim, Handle}
use libmodem.Xmodem.Session.{Session, Run, out_of_fuel, ◌>>=◌, pure, rcv, to_unsigned, to_signed}

-- A `char` that a read of one byte may have filled.
abbrev pub received_char : ℕ → List ℕ → ℕ
received_char old [] = old
received_char old (x ∷ xs) = x

-- Nothing is stored through `&time_to_recv` if the handle is not valid. The loop then adds an
-- indeterminate value to a sum that it does not use again; here it adds 0.
abbrev pub seconds : Option ℤ → ℤ
seconds none = pos 0
seconds (some t) = t

module _ {P : Serprim} {C : Type 0} (device : Handle) where
  -- The loop of `wait_for_rx_ready`, with `elapsed_time` and `rx_code`.
  unfoldable pub ready_loop : XferMode → ℕ → ℕ → ℕ → Session P C → Run (Session P C) ModemError
  ready_loop flags zero elapsed_time rx_code = λ _. out_of_fuel
  ready_loop flags (suc fuel) elapsed_time rx_code = do
    let w = P.int_bits
    r ← rcv device 1 (to_signed w ((60 + 2 ^ w - elapsed_time) % 2 ^ w)) true
    let elapsed_time' = (elapsed_time + to_unsigned w (seconds r.time_spent)) % 2 ^ w
    let rx_code' = received_char rx_code r.bytes
    elim r.status [
      | serial_no_errors ↦
          if (is_xmodem_1k flags || is_xmodem_crc flags) && (rx_code' == ascii_c)
          then pure (serial_to_modem_error serial_no_errors)
          else if is_xmodem flags && (rx_code' == nak)
          then pure (serial_to_modem_error serial_no_errors)
          else ready_loop flags fuel elapsed_time' rx_code'
      | other ↦ pure (serial_to_modem_error r.status)
    ]

  unfoldable pub wait_for_rx_ready : XferMode → ℕ → Session P C → Run (Session P C) ModemError
  unfolding ready_loop
  wait_for_rx_ready flags fuel = ready_loop flags fuel 0 nul

  -- `purge` reads bytes and drops them until a read times out.
  unfoldable pub purge : ℕ → Session P C → Run (Session P C) (Unit {0})
  purge zero = λ _. out_of_fuel
  purge (suc fuel) = do
    r ← rcv device 1 (pos 1) false
    elim r.status [ serial_timeout ↦ pure tt | other ↦ purge fuel ]
