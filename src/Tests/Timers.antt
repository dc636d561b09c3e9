-- ===== src/Tests/Timers.antt =====
-- The HDMI2USB platform over a small SoC on which nothing arrives, with a timer that counts down
-- from its reload value, one cycle for each call that asks for the time.
use libmodem.Platform.Hdmi2usb.{Soc, init_port, read_data}
use libmodem.Platform.Hdmi2usb.Turn.{HasTimer, read_data-stuck}
use libmodem.Prelude.{
  ℕ, ◌+◌, ◌-◌, ◌≤◌, ◌≡◌, refl, Bool, true, false, none, ltb, leb, if◌then◌else◌, arith,
}
use libmodem.Prelude.Int.{ℤ, pos, negsuc, pos_part}
use libmodem.Xmodem.Session.{to_signed, to_unsigned}

record Timer : Type 0 where
  reload : ℕ
  value : ℕ

abbrev down : Timer → Timer
down s = record s { value = if leb s.value 0 then s.reload else s.value - 1 }

-- The cycles since `start`, at most one turn ago.
abbrev since : ℕ → ℕ → ℕ → ℕ
since reload start value =
    let now = reload - value in if leb start now then now - start else now + reload - start

abbrev is_over : ℕ → ℤ → ℤ → ℕ → Bool
is_over reload start (negsuc n) value = true
is_over reload start (pos cycles) value = ltb cycles (since reload (pos_part start) value)

abbrev quiet_soc : Soc
quiet_soc = record {
  int_bits = 32;
  size_bits = 32;
  overflowed = λ z. to_signed 32 (to_unsigned 32 z);
  State = Timer;
  csr_uart_base = 0xE0001000;
  system_clock_frequency = 1000000;
  uart_read_nonblock = λ s. (false, s);
  uart_read = λ s. (0, s);
  uart_write = λ c s. s;
  elapsed = λ start period s. record {
    expired = is_over s.reload start period s.value;
    last_event = if is_over s.reload start period s.value then pos (s.reload - s.value) else start;
    state = down s;
  };
  time_init = λ s. s;
  timer0_en_write = λ n s. s;
  timer0_reload_write = λ n s. record s { reload = n };
  timer0_load_write = λ n s. record s { value = n };
  timer0_reload_read = λ s. s.reload;
  timer0_value_read = λ s. s.value;
}

since-turn :
    (reload start value cycles : ℕ)
    → reload ≤ cycles
    → ltb cycles (since reload start value) ≡ false
since-turn reload start value cycles long = ground arith

abbrev quiet_soc-HasTimer : HasTimer quiet_soc
quiet_soc-HasTimer = record {
  Silent = λ s. Unit {0};
  polls = λ s quiet. refl;
  poll_silent = λ s quiet. tt;
  elapsed_silent = λ start period s quiet. tt;
  enable_silent = λ n s quiet. tt;
  reload_silent = λ n s quiet. tt;
  load_silent = λ n s quiet. tt;
  reload_set = λ n s. refl;
  load_keeps = λ n s. refl;
  enable_keeps = λ n s. refl;
  poll_keeps = λ s. refl;
  elapsed_keeps = λ start period s. refl;
  within_turn = λ start cycles s long. since-turn s.reload (pos_part start) s.value cycles long;
}

-- The wait of 60 seconds, at a clock of 1 MHz.
read_data-stuck_example :
    let s = init_port quiet_soc (record { reload = 2000000; value = 5 }) in
    read_data quiet_soc 100 1 (pos 60) s.1 ≡ none
read_data-stuck_example =
    read_data-stuck quiet_soc quiet_soc-HasTimer 100 1 60 (record { reload = 2000000; value = 5 })
      tt (omega arith) (omega arith)
