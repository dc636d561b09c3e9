-- ===== src/Serial/Primitives.antt =====
-- The primitives of src/serprim.h, which each platform implements. `Port` is the state of all that
-- lies behind them: the driver, the UART and the line.
use libmodem.Prelude.{ℕ, Bool, List}
use libmodem.Prelude.Int.{ℤ}

-- The outcome of a read: the return value, what was stored from `data[0]` on, and the new state.
pub record Reading (Port : Type 0) : Type 0 where
  pub code : ℤ
  pub bytes : List ℕ
  pub port : Port

-- The same with the value stored through `elapsed`.
pub record TimedReading (Port : Type 0) : Type 0 where
  pub code : ℤ
  pub bytes : List ℕ
  pub elapsed : ℤ
  pub port : Port

-- A `serial_handle_t` is its address; `NULL` is 0.
abbrev pub Handle : Type 0
Handle = ℕ

abbrev pub null : Handle
null = 0

pub record Serprim : Type 1 where
  -- The widths of `unsigned int` and of `size_t` where the platform is built.
  pub int_bits : ℕ
  pub size_bits : ℕ
  pub Port : Type 0
  pub open_handle : ℕ → Port → Handle × Port
  -- A question about the value of the pointer alone, as the header says.
  pub handle_valid : Handle → Bool
  pub init_port : Handle → ℕ → Port → ℤ × Port
  pub write_data : Handle → List ℕ → Port → ℤ × Port
  pub read_data : Handle → ℕ → ℤ → Port → Reading Port
  pub read_data_get_elapsed_time : Handle → ℕ → ℤ → Port → TimedReading Port
  pub close_handle : Handle → Port → ℤ × Port
  pub flush_device : Handle → Port → ℤ × Port
