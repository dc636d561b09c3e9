-- ===== src/Tests/Serial.antt =====
-- The wrappers of src/serial.c on the loopback line.
use libmodem.Prelude.{◌≡◌, ◌≢◌, ◌↔◌, refl, true, false, none, some, [], ◌∷◌}
use libmodem.Prelude.Int.{pos, negsuc}
use libmodem.Serial.{serial_no_errors, serial_rcv, serial_close, serial_init}
use libmodem.Serial.Laws.{StatusOf, serial_init_lem, serial_close_lem, serial_rcv_lem}
use libmodem.Serial.Primitives.{null}
use libmodem.Tests.Loopback.{Wire, wire, loopback, wire_read, wire_timed_read}

abbrev idle : Wire
idle = wire (7 ∷ 8 ∷ []) []

serial_init_lem_example :
    let (status, result, _) = serial_init loopback 1 9600 idle in
    ((status ≡ serial_no_errors)
      ↔ ((loopback.handle_valid 1 ≡ true) × ((loopback.init_port 1 9600 idle).0 ≡ pos 0)))
    × (status ≡ serial_no_errors → result ≡ 1)
    × (status ≢ serial_no_errors → result ≡ null)
serial_init_lem_example = serial_init_lem loopback 1 9600 idle

serial_close_lem_example :
    let (status, result, _) = serial_close loopback 1 idle in
    ((status ≡ serial_no_errors) ↔ (
      (loopback.handle_valid 1 ≡ true)
      × ((loopback.flush_device 1 idle).0 ≡ pos 0)
      × ((loopback.close_handle 1 (loopback.flush_device 1 idle).1).0 ≡ pos 0)))
    × (status ≡ serial_no_errors → result ≡ null)
    × (status ≢ serial_no_errors → result ≡ 1)
serial_close_lem_example = serial_close_lem loopback 1 idle

serial_rcv_lem_example :
    let plain = serial_rcv loopback 3 (negsuc 4) false 1 idle in
    let timed = serial_rcv loopback 3 (negsuc 4) true 1 idle in
    StatusOf (wire_read 3 idle).code plain.status
    × StatusOf (wire_timed_read 3 idle).code timed.status
    × (plain.bytes ≡ 7 ∷ 8 ∷ [])
    × (timed.bytes ≡ 7 ∷ 8 ∷ [])
    × (plain.time_spent ≡ none)
    × (timed.time_spent ≡ some (pos 1))
serial_rcv_lem_example = serial_rcv_lem loopback 3 (negsuc 4) 1 idle refl
