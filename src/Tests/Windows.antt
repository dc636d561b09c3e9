-- ===== src/Tests/Windows.antt =====
-- The Windows platform over a small library: one port, whose settings and timeouts are stored as
-- they are set, and a count of ticks that is about to wrap around.
use libmodem.Platform.Windows.{
  Win32, CommTimeouts, Dcb, com_string, init_port, read_data, read_data_get_elapsed_time,
  handle_valid, flush_device, close_handle,
}
use libmodem.Platform.Windows.Interface.{serprim, serial_rcv-answers, serial_close-handle_valid}
use libmodem.Platform.Windows.Laws.{
  HasTimeouts, HasSettings, HasAdjusted, HasImmediate, number_from, com_string-fits,
  read_data-keeps, read_data_get_elapsed_time-counts, init_port-configures,
}
use libmodem.Prelude.{
  ℕ, ◌+◌, ◌≤◌, ◌<◌, ◌≡◌, ◌≢◌, ◌⊎◌, refl, true, false, none, some, List, [], ◌∷◌, length, take, drop,
  length-take, arith,
}
use libmodem.Prelude.Int.{pos, negsuc}
use libmodem.Serial.{serial_rcv, serial_close, serial_no_errors, serial_timeout, serial_hw_error}

record Machine : Type 0 where
  settings : Dcb ℕ
  timeouts : CommTimeouts
  arriving : List ℕ
  ticks : ℕ

abbrev library : Win32
library = record {
  size_bits = 64;
  State = Machine;
  DcbRest = ℕ;
  size_of_dcb = 28;
  one_stop_bit = 0;
  no_parity = 0;
  dtr_control_disable = 0;
  rts_control_disable = 0;
  maxdword = 0xFFFFFFFF;
  invalid_handle_value = 0xFFFFFFFF;
  create_file = λ name s. (5, s);
  get_comm_state = λ h s. some s.settings;
  set_comm_state = λ h dcb s. (true, record s { settings = dcb });
  get_comm_timeouts = λ h s. some s.timeouts;
  set_comm_timeouts = λ h t s. (true, record s { timeouts = t });
  write_file = λ h octets s. (true, s);
  read_file = λ h n s. record {
    success = true;
    bytes = take n s.arriving;
    state = record s { arriving = drop n s.arriving; ticks = 700 };
  };
  get_tick_count = λ s. s.ticks;
  win32_close_handle = λ h s. (true, s);
  flush_file_buffers = λ h s. (true, s);
  misused_close = λ h s. s;
}

abbrev slow : CommTimeouts
slow = record {
  read_interval_timeout = 1;
  read_total_timeout_multiplier = 2;
  read_total_timeout_constant = 3;
  write_total_timeout_multiplier = 4;
  write_total_timeout_constant = 5;
}

abbrev machine : Machine
machine = record {
  settings = record {
    dcb_length = 0;
    baud_rate = 300;
    byte_size = 7;
    stop_bits = 2;
    parity = 1;
    f_binary = false;
    f_dtr_control = 1;
    f_rts_control = 1;
    f_outx_cts_flow = true;
    f_outx_dsr_flow = true;
    f_dsr_sensitivity = true;
    f_abort_on_error = false;
    rest = 9;
  };
  timeouts = slow;
  arriving = 65 ∷ 66 ∷ [];
  ticks = 4294966996;
}

never :
    (t : CommTimeouts) (s : Machine)
    → true ≡ false
    → library.get_comm_timeouts 5 (library.set_comm_timeouts 5 t s).1
      ≡ library.get_comm_timeouts 5 s
never t s e = cc

abbrev library-HasTimeouts : HasTimeouts library 5
library-HasTimeouts = record {
  set_gets = λ t s e. refl;
  failed_keeps = λ t s e. never t s e;
  sets_again = λ t s s' e. refl;
}

abbrev library-HasSettings : HasSettings library 5
library-HasSettings = record { set_gets = λ dcb s e. refl; timeouts_keep = λ t s. refl }

com_string-fits_example :
    (length (com_string 65535) + 1 ≤ 14) × (number_from 0 (drop 7 (com_string 65535)) ≡ 65535)
com_string-fits_example = com_string-fits 65535 (omega arith)

read_data-keeps_example :
    library.get_comm_timeouts 5 (read_data library 5 3 (pos 10) machine).port ≡ some slow
read_data-keeps_example = read_data-keeps library 5 library-HasTimeouts 3 (pos 10) machine

-- 300 ticks before the wrap-around and 700 behind it.
read_data_get_elapsed_time-counts_example :
    (read_data_get_elapsed_time library 5 3 (pos 10) machine).elapsed ≡ pos 1000
unfolding read_data
read_data_get_elapsed_time-counts_example =
    read_data_get_elapsed_time-counts library 5 3 (pos 10) machine 1000 (omega arith) (omega arith)
      (omega arith)

init_port-configures_example :
    let (code, s') = init_port library 5 9600 machine in
    ((code ≡ pos 0)
      × HasImmediate library 5 9600 machine s'
      × HasAdjusted library 5 9600 machine s')
    ⊎ (((code ≡ negsuc 0) × (library.get_comm_state 5 machine ≡ none))
        ⊎ (((code ≡ negsuc 1) × (library.get_comm_state 5 machine ≢ none))
            ⊎ ((code ≡ negsuc 2) × HasAdjusted library 5 9600 machine s')))
init_port-configures_example =
    init_port-configures library 5 9600 machine library-HasTimeouts library-HasSettings

read_file-length : (n : ℕ) (s : Machine) → length (take n s.arriving) ≤ n
read_file-length n s = omega (arith, length-take {0} n s.arriving)

serial_rcv-answers_example :
    let r = serial_rcv (serprim library) 3 (pos 10) true 5 machine in
    ((r.status ≡ serial_no_errors) × (length r.bytes ≡ 3))
    ⊎ (((r.status ≡ serial_timeout) × (length r.bytes < 3))
        ⊎ ((r.status ≡ serial_hw_error) × (length r.bytes ≤ 3)))
unfolding handle_valid
serial_rcv-answers_example =
    serial_rcv-answers library (λ h n s. read_file-length n s) 3 (pos 10) true 5 machine refl

serial_close-handle_valid_example :
    handle_valid library (serial_close (serprim library) 5 machine).1 ≡ true
unfolding serial_close handle_valid flush_device close_handle
serial_close-handle_valid_example =
    serial_close-handle_valid library (λ e. omega arith) 5 machine refl
