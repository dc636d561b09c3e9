-- ===== src/Platform/Hdmi2usb.antt =====
-- The primitives of src/hdmi2usb/serprim.c, over the registers and the run-time library of the SoC,
-- which are parameters. src/hdmi2usb-or1k/serprim.c is the same file. Each loop that waits for the
-- hardware takes fuel, one unit a round, and gives `none` where the fuel does not last.
pub mod Loop
pub mod Laws
pub mod Interface
pub mod Turn
use libmodem.Prelude.{
  ℕ, zero, suc, ◌+◌, ◌*◌, ◌/◌, ◌%◌, ◌^◌, Bool, true, false, Option, none, some, List, [], ◌∷◌, leb,
  ltb, ◌&&◌, ◌-◌, ◌==◌, if◌then◌else◌,
}
use libmodem.Prelude.Int.{ℤ, pos, negsuc, pos_part, neg_part, ◌+ℤ◌, ◌-ℤ◌, ◌*ℤ◌, ltb_ℤ}
use libmodem.Serial.Primitives.{Reading, TimedReading, Handle, null}
use libmodem.Xmodem.Session.{to_unsigned, to_signed}

-- What `elapsed` answers, what it leaves in `*last_event`, and the state behind it.
pub record Elapsed (S : Type 0) : Type 0 where
  pub expired : Bool
  pub last_event : ℤ
  pub state : S

-- What <uart.h>, <time.h>, <generated/csr.h> and <hw/common.h> declare and the code uses. `State`
-- is that of the UART, the timer and the line. `int_bits` is the width of `int`, `size_bits` that
-- of `size_t`. `overflowed` is what the compiled code has for an `int` result that no `int` holds,
-- which C leaves open.
pub record Soc : Type 1 where
  pub int_bits : ℕ
  pub size_bits : ℕ
  pub overflowed : ℤ → ℤ
  pub State : Type 0
  pub csr_uart_base : Handle
  pub system_clock_frequency : ℕ
  pub uart_read_nonblock : State → Bool × State
  pub uart_read : State → ℕ × State
  pub uart_write : ℕ → State → State
  pub elapsed : ℤ → ℤ → State → Elapsed State
  pub time_init : State → State
  pub timer0_en_write : ℕ → State → State
  pub timer0_reload_write : ℕ → State → State
  pub timer0_load_write : ℕ → State → State
  pub timer0_reload_read : State → ℕ
  pub timer0_value_read : State → ℕ

-- The quotient of C, which rounds towards 0.
abbrev pub quot : ℤ → ℕ → ℤ
quot (pos n) d = pos (n / d)
quot (negsuc n) d = pos 0 -ℤ pos (suc n / d)

-- `data[count++] = c` in front of what follows.
abbrev pub stored : {S : Type 0} → ℕ → Option (Reading S) → Option (Reading S)
stored c none = none
stored c (some r) = some (record r { bytes = c ∷ r.bytes })

-- `*elapsed = t; return rv;`
abbrev pub timed : {S : Type 0} → ℤ → Reading S → TimedReading S
timed t r = record { code = r.code; bytes = r.bytes; elapsed = t; port = r.port }

module _ (K : Soc) where
  open K use {int_bits, State, csr_uart_base, system_clock_frequency, elapsed}

  unfoldable pub open_handle : ℕ → Handle
  open_handle port_no = if port_no == 0 then csr_uart_base else null

  unfoldable pub handle_valid : Handle → Bool
  handle_valid port = csr_uart_base == port

  -- A result of arithmetic on `int`s.
  abbrev pub int_result : ℤ → ℤ
  int_result z =
      if ltb (pos_part z) (2 ^ (int_bits - 1)) && leb (neg_part z) (2 ^ (int_bits - 1))
      then z
      else K.overflowed z

  -- The period of the timer, an `int` that is written to registers of the same width.
  unfoldable pub timer_period : ℕ
  timer_period = to_unsigned int_bits (int_result (pos (11 * system_clock_frequency)))

  unfoldable pub init_port : State → ℤ × State
  unfolding timer_period
  init_port s =
      let s₁ = K.timer0_en_write 0 s in
      let s₂ = K.timer0_reload_write timer_period s₁ in
      let s₃ = K.timer0_load_write timer_period s₂ in (pos 0, K.timer0_en_write 1 s₃)

  unfoldable pub write_data : List ℕ → State → ℤ × State
  write_data [] s = (pos 0, s)
  write_data (c ∷ data_left) s = write_data data_left (K.uart_write c s)

  -- `timeout * SYSTEM_CLOCK_FREQUENCY`, an `int`.
  unfoldable pub timeout_cycles : ℤ → ℤ
  unfolding ◌*ℤ◌
  timeout_cycles timeout = int_result (timeout *ℤ pos system_clock_frequency)

  -- `count` stays below `num_bytes`, an `unsigned int`, and does not wrap around.
  unfoldable pub read_loop : ℕ → ℕ → ℤ → ℕ → ℤ → State → Option (Reading State)
  read_loop zero num_bytes period count start_time s = none
  read_loop (suc fuel) num_bytes period count start_time s =
      let e = elapsed start_time period s in
      elim e.expired [
        | true ↦ some (record { code = negsuc 0; bytes = []; port = e.state })
        | false ↦
            (let (ready, polled) = K.uart_read_nonblock e.state in
              elim ready [
                | false ↦ read_loop fuel num_bytes period count e.last_event polled
                | true ↦
                    (let (c, after) = K.uart_read polled in
                      stored c (elim (leb num_bytes (count + 1)) [
                        | true ↦ some (record { code = pos 0; bytes = []; port = after })
                        | false ↦ read_loop fuel num_bytes period (count + 1) e.last_event after
                      ]))
              ])
      ]

  unfoldable pub read_data : ℕ → ℕ → ℤ → State → Option (Reading State)
  unfolding read_loop timeout_cycles
  read_data fuel num_bytes timeout s =
      let e = elapsed (pos 0) (negsuc 0) s in
      read_loop fuel num_bytes (timeout_cycles timeout) 0 e.last_event e.state

  -- The values of the timer before and after the read.
  unfoldable pub elapsed_seconds : ℕ → ℕ → ℕ → ℤ
  elapsed_seconds start_value end_value reload =
      let w = int_bits in
      let start_time = to_signed w start_value in
      let end_time = to_signed w end_value in
      let end_time' =
        if ltb_ℤ start_time end_time
        then to_signed w ((end_value + reload) % 2 ^ w)
        else end_time in
      quot (end_time' -ℤ start_time) system_clock_frequency

  unfoldable pub read_data_get_elapsed_time : ℕ → ℕ → ℤ → State → Option (TimedReading State)
  unfolding read_data elapsed_seconds
  read_data_get_elapsed_time fuel num_bytes timeout s = elim (read_data fuel num_bytes timeout s) [
    | none ↦ none
    | some r ↦ some (
        timed
          (elapsed_seconds (K.timer0_value_read s) (K.timer0_value_read r.port)
            (K.timer0_reload_read r.port))
          r)
  ]

  unfoldable pub close_handle : State → ℤ × State
  close_handle s = (pos 0, K.time_init s)

  unfoldable pub flush_device : ℕ → State → Option (ℤ × State)
  flush_device zero s = none
  flush_device (suc fuel) s =
      let (ready, polled) = K.uart_read_nonblock s in
      elim ready [ false ↦ some (pos 0, polled) | true ↦ flush_device fuel (K.uart_read polled).1 ]
