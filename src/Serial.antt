-- ===== src/Serial.antt =====
-- src/serial.c: the wrappers over the primitives of a platform. Each returns its status, what it
-- stores through its pointers, and the new state of the platform.
pub mod Primitives
pub mod Laws
use libmodem.Prelude.{
  ℕ, zero, suc, ◌≤◌, Bool, true, false, Option, none, some, List, [], length, not, ◌||◌,
  if◌then◌else◌,
}
use libmodem.Prelude.Int.{ℤ, pos, negsuc}
use libmodem.Serial.Primitives.{Serprim, Handle, null, Reading, TimedReading}

pub data SerialStatus : Type 0 where
  serial_no_errors serial_timeout serial_hw_error : SerialStatus

-- A return code as a condition.
abbrev pub is_nonzero : ℤ → Bool
is_nonzero (pos zero) = false
is_nonzero _ = true

-- `if(timeout < 0) timeout = 0;`
abbrev pub clamp_timeout : ℤ → ℤ
clamp_timeout (pos n) = pos n
clamp_timeout (negsuc n) = pos 0

-- The `switch` of `serial_rcv`.
unfoldable pub read_status : ℤ → SerialStatus
read_status (pos zero) = serial_no_errors
read_status (negsuc zero) = serial_timeout
read_status _ = serial_hw_error

-- What `serial_rcv` leaves behind; `time_spent` is empty where nothing was stored through it.
pub record Received (Port : Type 0) : Type 0 where
  pub status : SerialStatus
  pub bytes : List ℕ
  pub time_spent : Option ℤ
  pub port : Port

module _ (P : Serprim) where
  open P use {
    Port, open_handle, handle_valid, init_port, write_data, read_data, read_data_get_elapsed_time,
    close_handle, flush_device,
  }

  unfoldable pub serial_init : ℕ → ℕ → Port → SerialStatus × Handle × Port
  serial_init port_no baud_rate s =
      let (h, opened) = open_handle port_no s in
      if handle_valid h
      then (let (code, ready) = init_port h baud_rate opened in
          if is_nonzero code then (serial_hw_error, null, ready) else (serial_no_errors, h, ready))
      else (serial_hw_error, null, opened)

  unfoldable pub serial_snd : List ℕ → Handle → Port → SerialStatus × Port
  serial_snd octets h s =
      if handle_valid h
      then (let (code, s') = write_data h octets s in
          (if is_nonzero code then serial_hw_error else serial_no_errors, s'))
      else (serial_hw_error, s)

  -- The flag says whether `time_spent` is not `NULL`.
  unfoldable pub serial_rcv : ℕ → ℤ → Bool → Handle → Port → Received Port
  unfolding read_status
  serial_rcv num_bytes timeout timed h s =
      if handle_valid h
      then (if timed
          then (let r = read_data_get_elapsed_time h num_bytes (clamp_timeout timeout) s in
              record {
                status = read_status r.code;
                bytes = r.bytes;
                time_spent = some r.elapsed;
                port = r.port;
              })
          else (let r = read_data h num_bytes (clamp_timeout timeout) s in
              record {
                status = read_status r.code;
                bytes = r.bytes;
                time_spent = none;
                port = r.port;
              }))
      else record { status = read_status (negsuc 1); bytes = []; time_spent = none; port = s }

  unfoldable pub serial_flush : Handle → Port → SerialStatus × Port
  serial_flush h s =
      if handle_valid h
      then (let (code, s') = flush_device h s in
          (if is_nonzero code then serial_hw_error else serial_no_errors, s'))
      else (serial_hw_error, s)

  abbrev is_error : SerialStatus → Bool
  is_error serial_no_errors = false
  is_error _ = true

  unfoldable pub serial_close : Handle → Port → SerialStatus × Handle × Port
  unfolding serial_flush
  serial_close h s =
      if handle_valid h
      then (let (status, flushed) = serial_flush h s in
          if is_error status
          then (serial_hw_error, h, flushed)
          else (let (code, closed) = close_handle h flushed in
              if is_nonzero code
              then (serial_hw_error, h, closed)
              else (serial_no_errors, null, closed)))
      else (serial_hw_error, h, s)
