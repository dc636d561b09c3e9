-- ===== src/Tests/Socs.antt =====
-- The HDMI2USB platform over a small SoC: a timer that is a count of the calls that asked for it,
-- and a UART that holds what it has received.
use libmodem.Platform.Hdmi2usb.{
  Soc, handle_valid, read_data, read_data_get_elapsed_time, timed, timeout_cycles,
}
use libmodem.Platform.Hdmi2usb.Interface.{serprim, serprim-IsBounded, serial_rcv-receives}
use libmodem.Platform.Hdmi2usb.Loop.{IsRunning}
use libmodem.Platform.Hdmi2usb.Laws.{Reads, read_data-Reads, read_data_get_elapsed_time-negates}
use libmodem.Prelude.{
  ℕ, suc, ◌+◌, ◌-◌, ◌<◌, ◌≡◌, ◌⊎◌, refl, Bool, true, false, some, List, [], ◌∷◌, ◌++◌, length, ltb,
  arith, if◌then◌else◌,
}
use libmodem.Xmodem.Session.{head_of, to_signed, to_unsigned}
use libmodem.Prelude.Int.{ℤ, pos, negsuc, pos_part, ◌-ℤ◌, ◌*ℤ◌}
use libmodem.Serial.{serial_rcv, serial_no_errors, serial_timeout}
use libmodem.Xmodem.Safety.{IsBounded}

record Board : Type 0 where
  clock : ℕ
  received : List ℕ
  written : List ℕ

abbrev is_over : ℤ → ℤ → ℕ → Bool
is_over start (negsuc n) clock = true
is_over start (pos p) clock = ltb p (clock - pos_part start)

abbrev any_received : List ℕ → Bool
any_received [] = false
any_received (x ∷ xs) = true

abbrev rest_of : List ℕ → List ℕ
rest_of [] = []
rest_of (x ∷ xs) = xs

abbrev soc : Soc
soc = record {
  int_bits = 32;
  size_bits = 32;
  overflowed = λ z. to_signed 32 (to_unsigned 32 z);
  State = Board;
  csr_uart_base = 0xE0001000;
  system_clock_frequency = 2;
  uart_read_nonblock = λ s. (any_received s.received, s);
  uart_read = λ s. (head_of s.received, record s { received = rest_of s.received });
  uart_write = λ c s. record s { written = s.written ++ (c ∷ []) };
  elapsed = λ start period s. record {
    expired = is_over start period s.clock;
    last_event = if is_over start period s.clock then pos s.clock else start;
    state = record s { clock = suc s.clock };
  };
  time_init = λ s. s;
  timer0_en_write = λ n s. s;
  timer0_reload_write = λ n s. s;
  timer0_load_write = λ n s. s;
  timer0_reload_read = λ s. 1000;
  timer0_value_read = λ s. 1000 - s.clock;
}

abbrev ticks_left : ℤ → ℤ → ℕ → ℕ
ticks_left start period clock = pos_part start + pos_part period + 1 - clock

fewer_ticks :
    (start period : ℤ) (clock : ℕ)
    → is_over start period clock ≡ false
    → ticks_left start period (suc clock) < ticks_left start period clock
fewer_ticks start (negsuc n) clock e = cc
fewer_ticks start (pos p) clock e = ground arith

rest_of-length : (xs : List ℕ) → any_received xs ≡ true → length (rest_of xs) < length xs
rest_of-length [] e = cc
rest_of-length (x ∷ xs) e = omega arith

abbrev soc-IsRunning : IsRunning soc
soc-IsRunning = record {
  left = λ start period s. ticks_left start period s.clock;
  ticks = λ start period s e. rw e (fewer_ticks start period s.clock e);
  poll_keeps = λ start period s. omega arith;
  read_keeps = λ start period s. omega arith;
  pending = λ s. length s.received;
  takes = λ s e. rest_of-length s.received e;
}

abbrev board : Board
board = record { clock = 3; received = 65 ∷ 66 ∷ []; written = [] }

read_data-Reads_example : Reads 2 (read_data soc 10 2 (pos 1) board)
unfolding timeout_cycles ◌*ℤ◌
read_data-Reads_example =
    read_data-Reads soc soc-IsRunning 10 2 (pos 1) board (omega arith) (omega arith)

-- After a read of three bytes, of which two come: two seconds of the timer are over.
abbrev late : Board
late = record { clock = 7; received = []; written = [] }

read_data_get_elapsed_time-negates_example :
    read_data_get_elapsed_time soc 10 3 (pos 1) board
    ≡ some (timed (pos 0 -ℤ pos 2) (record { code = negsuc 0; bytes = 65 ∷ 66 ∷ []; port = late }))
unfolding read_data timeout_cycles ◌*ℤ◌
read_data_get_elapsed_time-negates_example =
    read_data_get_elapsed_time-negates soc 10 3 (pos 1) board
      (record { code = negsuc 0; bytes = 65 ∷ 66 ∷ []; port = late }) refl (omega arith)
      (omega arith)

serprim-IsBounded_example : IsBounded (serprim soc soc-IsRunning)
serprim-IsBounded_example = serprim-IsBounded soc soc-IsRunning

serial_rcv-receives_example :
    let r = serial_rcv (serprim soc soc-IsRunning) 2 (pos 1) true 0xE0001000 board in
    ((r.status ≡ serial_no_errors) × (length r.bytes ≡ 2))
    ⊎ ((r.status ≡ serial_timeout) × (length r.bytes < 2))
unfolding handle_valid
serial_rcv-receives_example =
    serial_rcv-receives soc soc-IsRunning 2 (pos 1) true 0xE0001000 board (omega arith) refl
