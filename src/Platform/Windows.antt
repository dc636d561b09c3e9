-- ===== src/Platform/Windows.antt =====
-- The primitives of src/windows/serprim.c, over the Win32 calls, which are parameters. `int`,
-- `long` and `DWORD` have 32 bits there. A call that fills a structure through a pointer gives it,
-- or `none` where it fails.
pub mod Laws
pub mod Interface
use libmodem.Prelude.{
  ℕ, zero, suc, ◌+◌, ◌-◌, ◌*◌, ◌/◌, ◌%◌, ◌^◌, Bool, true, false, not, Option, none, some, List, [],
  ◌∷◌, ◌++◌, length, ltb, ◌==◌, if◌then◌else◌,
}
use libmodem.Prelude.Int.{ℤ, pos, negsuc, pos_part}
use libmodem.Serial.Primitives.{Reading, TimedReading, Handle}
use libmodem.Xmodem.Session.{to_signed}

-- `COMMTIMEOUTS`
pub record CommTimeouts : Type 0 where
  pub read_interval_timeout : ℕ
  pub read_total_timeout_multiplier : ℕ
  pub read_total_timeout_constant : ℕ
  pub write_total_timeout_multiplier : ℕ
  pub write_total_timeout_constant : ℕ

-- `DCB`; `rest` has the members that the code leaves alone.
pub record Dcb (Rest : Type 0) : Type 0 where
  pub dcb_length : ℕ
  pub baud_rate : ℕ
  pub byte_size : ℕ
  pub stop_bits : ℕ
  pub parity : ℕ
  pub f_binary : Bool
  pub f_dtr_control : ℕ
  pub f_rts_control : ℕ
  pub f_outx_cts_flow : Bool
  pub f_outx_dsr_flow : Bool
  pub f_dsr_sensitivity : Bool
  pub f_abort_on_error : Bool
  pub rest : Rest

-- Whether `ReadFile` succeeds, what it stores, and the new state.
pub record FileRead (S : Type 0) : Type 0 where
  pub success : Bool
  pub bytes : List ℕ
  pub state : S

-- What <windows.h> declares and the code uses. `misused_close` is what `serial_close(port)` does in
-- `init_port`, where the handle is taken for a pointer to one: it depends on what is in memory
-- there.
pub record Win32 : Type 1 where
  pub size_bits : ℕ
  pub State : Type 0
  pub DcbRest : Type 0
  pub size_of_dcb : ℕ
  pub one_stop_bit : ℕ
  pub no_parity : ℕ
  pub dtr_control_disable : ℕ
  pub rts_control_disable : ℕ
  pub maxdword : ℕ
  pub invalid_handle_value : Handle
  pub create_file : List ℕ → State → Handle × State
  pub get_comm_state : Handle → State → Option (Dcb DcbRest)
  pub set_comm_state : Handle → Dcb DcbRest → State → Bool × State
  pub get_comm_timeouts : Handle → State → Option CommTimeouts
  pub set_comm_timeouts : Handle → CommTimeouts → State → Bool × State
  pub write_file : Handle → List ℕ → State → Bool × State
  pub read_file : Handle → ℕ → State → FileRead State
  pub get_tick_count : State → ℕ
  pub win32_close_handle : Handle → State → Bool × State
  pub flush_file_buffers : Handle → State → Bool × State
  pub misused_close : Handle → State → State

-- The `%d` of `sprintf`, for numbers of at most so many digits.
unfoldable pub decimal : ℕ → ℕ → List ℕ
decimal zero n = []
decimal (suc digits) n =
    let front = decimal digits (n / 10) in
    if ltb n 10 then (48 + n) ∷ [] else front ++ ((48 + n % 10) ∷ [])

-- The characters in front of the first zero of the array of 14, which is what `CreateFile` reads of
-- it. An `unsigned short` has at most five digits.
unfoldable pub com_string : ℕ → List ℕ
unfolding decimal
com_string port_no = 92 ∷ 92 ∷ 46 ∷ 92 ∷ 67 ∷ 79 ∷ 77 ∷ decimal 5 port_no

-- `? 0 : -1`
abbrev pub zero_if : {S : Type 0} → Bool × S → ℤ × S
zero_if (true, s) = (pos 0, s)
zero_if (false, s) = (negsuc 0, s)

-- `1000uL * timeout`, from 0 on, as a `DWORD`.
abbrev pub read_ticks : ℤ → ℕ
read_ticks timeout = 1000 * pos_part timeout % 2 ^ 32

-- The timeouts of a read.
abbrev pub curr_timeouts : ℕ → CommTimeouts → CommTimeouts
curr_timeouts timeout_ticks prev_timeouts = record prev_timeouts {
  read_interval_timeout = timeout_ticks;
  read_total_timeout_multiplier = 0;
  read_total_timeout_constant = timeout_ticks;
  write_total_timeout_multiplier = 10;
  write_total_timeout_constant = 50;
}

module _ (K : Win32) where
  open K use {State, DcbRest}

  unfoldable pub open_handle : ℕ → State → Handle × State
  unfolding com_string
  open_handle port_no s = K.create_file (com_string port_no) s

  unfoldable pub handle_valid : Handle → Bool
  handle_valid port = not (port == K.invalid_handle_value)

  abbrev pub configured : ℕ → Dcb DcbRest → Dcb DcbRest
  configured rate dcb = record dcb {
    dcb_length = K.size_of_dcb;
    baud_rate = rate;
    byte_size = 8;
    stop_bits = K.one_stop_bit;
    parity = K.no_parity;
    f_binary = true;
    f_dtr_control = K.dtr_control_disable;
    f_rts_control = K.rts_control_disable;
    f_outx_cts_flow = false;
    f_outx_dsr_flow = false;
    f_dsr_sensitivity = false;
    f_abort_on_error = true;
  }

  -- Every member is set, so that it does not matter whether `GetCommTimeouts` fails.
  abbrev pub first_timeouts : CommTimeouts
  first_timeouts = record {
    read_interval_timeout = K.maxdword;
    read_total_timeout_multiplier = 0;
    read_total_timeout_constant = 0;
    write_total_timeout_multiplier = 0;
    write_total_timeout_constant = 0;
  }

  unfoldable pub init_port : Handle → ℕ → State → ℤ × State
  init_port port baud_rate s = elim (K.get_comm_state port s) [
    | none ↦ (negsuc 0, K.misused_close port s)
    | some dcb ↦
        (let (set, s₁) = K.set_comm_state port (configured baud_rate dcb) s in
          elim set [
            | false ↦ (negsuc 1, s₁)
            | true ↦
                (let (timed, s₂) = K.set_comm_timeouts port first_timeouts s₁ in
                  (if timed then pos 0 else negsuc 2, s₂))
          ])
  ]

  unfoldable pub write_data : Handle → List ℕ → State → ℤ × State
  write_data port octets s = zero_if (K.write_file port octets s)

  unfoldable pub read_data : Handle → ℕ → ℤ → State → Reading State
  read_data port num_bytes timeout s = elim (K.get_comm_timeouts port s) [
    | none ↦ record { code = negsuc 1; bytes = []; port = s }
    | some prev ↦
        (let (set, s₁) = K.set_comm_timeouts port (curr_timeouts (read_ticks timeout) prev) s in
          elim set [
            | false ↦ record { code = negsuc 1; bytes = []; port = s₁ }
            | true ↦
                (let r = K.read_file port num_bytes s₁ in
                  record {
                    code =
                        if r.success
                        then (if length r.bytes == num_bytes then pos 0 else negsuc 0)
                        else negsuc 1;
                    bytes = r.bytes;
                    port = (K.set_comm_timeouts port prev r.state).1;
                  })
          ])
  ]

  -- The difference of two `ULONGLONG`s, as an `int`.
  abbrev pub tick_difference : ℕ → ℕ → ℤ
  tick_difference start end = to_signed 32 ((end + 2 ^ 64 - start) % 2 ^ 64 % 2 ^ 32)

  unfoldable pub read_data_get_elapsed_time : Handle → ℕ → ℤ → State → TimedReading State
  unfolding read_data
  read_data_get_elapsed_time port num_bytes timeout s =
      let r = read_data port num_bytes timeout s in
      record {
        code = r.code;
        bytes = r.bytes;
        elapsed = tick_difference (K.get_tick_count s) (K.get_tick_count r.port);
        port = r.port;
      }

  unfoldable pub close_handle : Handle → State → ℤ × State
  close_handle port s = zero_if (K.win32_close_handle port s)

  unfoldable pub flush_device : Handle → State → ℤ × State
  flush_device port s = zero_if (K.flush_file_buffers port s)
