-- ===== src/Platform/Hdmi2usb/Interface.antt =====
-- The primitives of src/hdmi2usb/serprim.c, and of src/hdmi2usb-or1k/serprim.c, which has the same
-- text, as what src/serprim.h asks of a platform, on an SoC on which every wait ends: the loops
-- have enough fuel.
use libmodem.Platform.Hdmi2usb.{
  Soc, open_handle, handle_valid, init_port, write_data, read_data, timeout_cycles,
  read_data_get_elapsed_time, close_handle, flush_device,
}
use libmodem.Platform.Hdmi2usb.Loop.{IsRunning}
use libmodem.Platform.Hdmi2usb.Laws.{IsAnswer, read_data-Reads}
use libmodem.Prelude.{
  ℕ, suc, ◌≤◌, ◌<◌, ◌≡◌, ap, ◌⊎◌, inl, inr, Bool, true, false, Option, none, some, List, [], length,
  arith,
}
use libmodem.Prelude.Int.{ℤ, pos, negsuc}
use libmodem.Serial.{serial_no_errors, serial_timeout, serial_rcv, read_status, clamp_timeout}
use libmodem.Serial.Primitives.{Serprim, Handle}
use libmodem.Xmodem.Safety.{IsBounded}

-- The result of a loop, which always has one here.
abbrev or_else : {A : Type 0} → A → Option A → A
or_else a none = a
or_else a (some b) = b

module _ (K : Soc) (L : IsRunning K) where
  -- Fuel for the rounds that the timer leaves a read.
  abbrev pub rounds : ℤ → K.State → ℕ
  rounds timeout s =
      let e = K.elapsed (pos 0) (negsuc 0) s in
      suc (L.left e.last_event (timeout_cycles K timeout) e.state)

  abbrev pub serprim : Serprim
  serprim = record {
    int_bits = K.int_bits;
    size_bits = K.size_bits;
    Port = K.State;
    open_handle = λ port_no s. (open_handle K port_no, s);
    handle_valid = handle_valid K;
    init_port = λ port baud_rate s. init_port K s;
    write_data = λ port octets s. write_data K octets s;
    read_data = λ port num_bytes timeout s.
        or_else (record { code = negsuc 1; bytes = []; port = s })
          (read_data K (rounds timeout s) num_bytes timeout s);
    read_data_get_elapsed_time = λ port num_bytes timeout s.
        or_else (record { code = negsuc 1; bytes = []; elapsed = pos 0; port = s })
          (read_data_get_elapsed_time K (rounds timeout s) num_bytes timeout s);
    close_handle = λ port s. close_handle K s;
    flush_device = λ port s. or_else (negsuc 1, s) (flush_device K (suc (L.pending s)) s);
  }

  read-IsAnswer :
      (h : Handle) (n : ℕ) (t : ℤ) (s : K.State)
      → 1 ≤ n
      → let r = serprim.read_data h n t s in IsAnswer n r.code r.bytes
  read-IsAnswer h n t s some_bytes =
      let (r, e, read) = read_data-Reads K L (rounds t s) n t s some_bytes (omega arith) in
      rw e read

  timed_read-IsAnswer :
      (h : Handle) (n : ℕ) (t : ℤ) (s : K.State)
      → 1 ≤ n
      → let r = serprim.read_data_get_elapsed_time h n t s in IsAnswer n r.code r.bytes
  unfolding read_data_get_elapsed_time
  timed_read-IsAnswer h n t s some_bytes =
      let (r, e, read) = read_data-Reads K L (rounds t s) n t s some_bytes (omega arith) in
      rw (e, read_data_get_elapsed_time) read

  at_most : (n : ℕ) (code : ℤ) (octets : List ℕ) → IsAnswer n code octets → length octets ≤ n
  at_most n code octets (inl (e, f)) = omega arith
  at_most n code octets (inr (e, f)) = omega arith

  -- On an SoC on which every wait ends, also one longer than a turn of the timer, the platform's
  -- reads of at least one byte store no more than they are asked for, whatever comes, and whether
  -- or not they report the time.
  pub serprim-IsBounded : IsBounded serprim
  serprim-IsBounded = record {
    read = λ h n t s some_bytes. at_most n _ _ (read-IsAnswer h n t s some_bytes);
    timed_read = λ h n t s some_bytes. at_most n _ _ (timed_read-IsAnswer h n t s some_bytes);
  }

  status-of :
      (n : ℕ) (code : ℤ) (octets : List ℕ)
      → IsAnswer n code octets
      → ((read_status code ≡ serial_no_errors) × (length octets ≡ n))
        ⊎ ((read_status code ≡ serial_timeout) × (length octets < n))
  unfolding read_status
  status-of n code octets (inl (e, f)) = inl (ap read_status e, f)
  status-of n code octets (inr (e, f)) = inr (ap read_status e, f)

  -- On an SoC on which every wait ends, also one longer than a turn of the timer, and on a valid
  -- handle, `serial_rcv`, asked for at least one byte, returns no error with all the bytes that it
  -- was asked for, or a timeout with fewer; it never reports an error of the hardware.
  pub serial_rcv-receives :
      (n : ℕ) (timeout : ℤ) (timed : Bool) (h : Handle) (s : K.State)
      → 1 ≤ n
      → handle_valid K h ≡ true
      → let r = serial_rcv serprim n timeout timed h s in
        ((r.status ≡ serial_no_errors) × (length r.bytes ≡ n))
        ⊎ ((r.status ≡ serial_timeout) × (length r.bytes < n))
  unfolding serial_rcv
  serial_rcv-receives n timeout true h s some_bytes valid =
      rw valid (status-of n _ _ (timed_read-IsAnswer h n (clamp_timeout timeout) s some_bytes))
  serial_rcv-receives n timeout false h s some_bytes valid =
      rw valid (status-of n _ _ (read-IsAnswer h n (clamp_timeout timeout) s some_bytes))
