-- ===== src/Modem.antt =====
-- The constants and the types of src/modem.h. A `char` is its bit pattern, a number below 256: the
-- code compares it only with constants below 128, for which the sign makes no difference.
pub mod Buffers
use libmodem.Prelude.{ℕ, Bool, List, true, false}
use libmodem.Prelude.Int.{ℤ}
use libmodem.Serial.{SerialStatus, serial_no_errors, serial_timeout, serial_hw_error}

abbrev pub nul : ℕ
nul = 0x00

abbrev pub soh : ℕ
soh = 0x01

abbrev pub stx : ℕ
stx = 0x02

abbrev pub eot : ℕ
eot = 0x04

abbrev pub ack : ℕ
ack = 0x06

abbrev pub nak : ℕ
nak = 0x15

abbrev pub can : ℕ
can = 0x18

abbrev pub sub : ℕ
sub = 0x1A

abbrev pub ascii_c : ℕ
ascii_c = 0x43

abbrev pub cpmeof : ℕ
cpmeof = sub

-- `enum offset_names`
abbrev pub start_char : ℕ
start_char = 0

abbrev pub block_no : ℕ
block_no = 1

abbrev pub comp_block_no : ℕ
comp_block_no = 2

abbrev pub data_start : ℕ
data_start = 3

abbrev pub chksum_crc : ℕ
chksum_crc = 131

abbrev pub chksum_end : ℕ
chksum_end = 132

abbrev pub crc_end : ℕ
crc_end = 133

abbrev pub x1k_crc : ℕ
x1k_crc = 1027

abbrev pub x1k_end : ℕ
x1k_end = 1029

pub data ModemError : Type 0 where
  modem_no_errors bad_crc_chksum sent_can packet_mismatch channel_error : ModemError
  undefined_error modem_hw_error modem_timeout not_implemented : ModemError

-- `xmodem_xfer_mode_t`
pub data XferMode : Type 0 where
  xmodem xmodem_crc xmodem_1k : XferMode

abbrev pub is_xmodem : XferMode → Bool
is_xmodem xmodem = true
is_xmodem _ = false

abbrev pub is_xmodem_crc : XferMode → Bool
is_xmodem_crc xmodem_crc = true
is_xmodem_crc _ = false

abbrev pub is_xmodem_1k : XferMode → Bool
is_xmodem_1k xmodem_1k = true
is_xmodem_1k _ = false

-- What an `output_channel_t` does: its result, what it stored from `buf[0]` on, and its new state.
pub record Filled (C : Type 0) : Type 0 where
  pub result : ℤ
  pub bytes : List ℕ
  pub chan : C

-- The arguments are `request_size`, `last_sent_size` and the state behind `chan_state`.
abbrev pub OutputChannel : Type 0 → Type 0
OutputChannel C = ℕ → ℕ → C → Filled C

-- The arguments are the `buf_size` bytes of `buf`, `buf_size`, `eof` and the state.
abbrev pub InputChannel : Type 0 → Type 0
InputChannel C = List ℕ → ℕ → Bool → C → ℤ × C

unfoldable pub serial_to_modem_error : SerialStatus → ModemError
serial_to_modem_error serial_no_errors = modem_no_errors
serial_to_modem_error serial_timeout = modem_timeout
serial_to_modem_error serial_hw_error = modem_hw_error
