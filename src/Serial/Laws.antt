-- ===== src/Serial/Laws.antt =====
-- What the wrappers of src/serial.c promise, over any platform.
use libmodem.Prelude.{ℕ, ◌≡◌, refl, ◌≢◌, ◌↔◌, Bool, true, false, none, some, List, [], arith}
use libmodem.Prelude.Int.{ℤ, pos, negsuc, pos_part}
use libmodem.Serial.{
  SerialStatus, serial_no_errors, serial_timeout, serial_hw_error, read_status, serial_init,
  serial_snd, serial_rcv, serial_flush, serial_close,
}
use libmodem.Serial.Primitives.{Serprim, Handle, null}

-- The meaning of a read's return code that src/serprim.h documents.
abbrev pub StatusOf : ℤ → SerialStatus → Type 0
StatusOf code status =
    ((status ≡ serial_no_errors) ↔ (code ≡ pos 0)) × ((status ≡ serial_timeout) ↔ (code ≡ negsuc 0))

read_status-StatusOf : (code : ℤ) → StatusOf code (read_status code)
unfolding read_status
read_status-StatusOf code = ground arith

module _ (P : Serprim) where
  open P use {
    Port, open_handle, handle_valid, init_port, write_data, read_data, read_data_get_elapsed_time,
    close_handle, flush_device,
  }

  -- With a handle that is not valid, sending, receiving, flushing and closing report a hardware
  -- error, leave the port and the handle alone, and store nothing.
  pub invalid_handle-inert :
      (h : Handle) (s : Port) (octets : List ℕ) (n : ℕ) (timeout : ℤ) (timed : Bool)
      → handle_valid h ≡ false
      → (serial_snd P octets h s ≡ (serial_hw_error, s))
        × (serial_rcv P n timeout timed h s
            ≡ record { status = serial_hw_error; bytes = []; time_spent = none; port = s })
        × (serial_flush P h s ≡ (serial_hw_error, s))
        × (serial_close P h s ≡ (serial_hw_error, h, s))
  unfolding serial_snd serial_rcv serial_flush serial_close
  invalid_handle-inert h s octets n timeout timed bad = (rw bad, rw bad, rw bad, rw bad)

  -- `serial_init` succeeds exactly when the opened handle is valid and its initialisation returns
  -- 0; it then returns that handle, and `NULL` otherwise.
  pub serial_init_lem :
      (port_no baud_rate : ℕ) (s : Port)
      → let h = (open_handle port_no s).0 in
        let (status, result, _) = serial_init P port_no baud_rate s in
        ((status ≡ serial_no_errors) ↔ (
          (handle_valid h ≡ true) × ((init_port h baud_rate (open_handle port_no s).1).0 ≡ pos 0)))
        × (status ≡ serial_no_errors → result ≡ h)
        × (status ≢ serial_no_errors → result ≡ null)
  unfolding serial_init
  serial_init_lem port_no baud_rate s = (ground arith, ground arith, ground arith)

  -- `serial_close` succeeds exactly when the handle is valid, the flush returns 0 and closing the
  -- flushed port returns 0; it then clears the handle, and keeps it otherwise.
  pub serial_close_lem :
      (h : Handle) (s : Port)
      → let (status, result, _) = serial_close P h s in
        ((status ≡ serial_no_errors) ↔ (
          (handle_valid h ≡ true)
          × ((flush_device h s).0 ≡ pos 0)
          × ((close_handle h (flush_device h s).1).0 ≡ pos 0)))
        × (status ≡ serial_no_errors → result ≡ null)
        × (status ≢ serial_no_errors → result ≡ h)
  unfolding serial_close
  serial_close_lem h s = (ground arith, ground arith, ground arith)

  -- With a valid handle `serial_rcv` reports no error exactly when the read returns 0 and a timeout
  -- exactly when it returns -1, for the read that `time_spent` selects. The read is given the
  -- timeout, or 0 for a negative one; the elapsed time is passed on if it was asked for.
  pub serial_rcv_lem :
      (n : ℕ) (timeout : ℤ) (h : Handle) (s : Port)
      → handle_valid h ≡ true
      → let plain = serial_rcv P n timeout false h s in
        let timed = serial_rcv P n timeout true h s in
        let read = read_data h n (pos (pos_part timeout)) s in
        let timed_read = read_data_get_elapsed_time h n (pos (pos_part timeout)) s in
        StatusOf read.code plain.status
        × StatusOf timed_read.code timed.status
        × (plain.bytes ≡ read.bytes)
        × (timed.bytes ≡ timed_read.bytes)
        × (plain.time_spent ≡ none)
        × (timed.time_spent ≡ some timed_read.elapsed)
  unfolding serial_rcv
  serial_rcv_lem n (pos t) h s ok =
      rw ok (read_status-StatusOf _, read_status-StatusOf _, refl, refl, refl, refl)
  serial_rcv_lem n (negsuc t) h s ok =
      rw ok (read_status-StatusOf _, read_status-StatusOf _, refl, refl, refl, refl)
