-- ===== src/Platform/Dos.antt =====
-- The primitives of src/dos/serprim.c, over the PICTOR library, which is a parameter.
pub mod Laws
use libmodem.Prelude.{
  ℕ, ◌+◌, ◌-◌, ◌*◌, ◌%◌, ◌^◌, Bool, true, false, ◌||◌, List, [], length, ltb, ◌==◌, if◌then◌else◌,
}
use libmodem.Prelude.Int.{ℤ, pos, negsuc, pos_part}
use libmodem.Serial.{is_nonzero}
use libmodem.Serial.Primitives.{Reading, Handle, null}

-- What <comlib.h> declares and the code uses: its calls, with their result and the state behind
-- them, and its constants. The numbers of the ports and of the baud rates are its own. `int_bits`
-- is the width of `int`.
pub record Comlib : Type 1 where
  pub int_bits : ℕ
  pub State : Type 0
  pub co_com1 : ℕ
  pub co_com2 : ℕ
  pub co_com3 : ℕ
  pub co_com4 : ℕ
  pub co_baud : ℕ → ℕ
  pub comopen : ℕ → ℕ → State → ℤ × State
  pub comwrite : List ℕ → State → ℤ × State
  pub comread : ℕ → State → Reading State
  pub comclose : State → ℤ × State
  pub comflush : State → State
  pub comgettimeout : State → ℕ
  pub comsettimeout : ℕ → State → State

unfoldable pub open_handle : ℕ → Handle
open_handle port_no =
    if port_no == 1
    then 0x3F8
    else if port_no == 2
    then 0x2F8
    else if port_no == 3
    then 0x3E8
    else if port_no == 4
    then 0x2E8
    else null

unfoldable pub handle_valid : Handle → Bool
handle_valid port_addr =
    (port_addr == 0x3F8) || (port_addr == 0x2F8) || (port_addr == 0x3E8) || (port_addr == 0x2E8)

-- A baud rate that the code has no constant for is taken for 9600.
unfoldable pub known_baud : ℕ → ℕ
known_baud baud_rate =
    if (baud_rate == 300)
      || (baud_rate == 1200)
      || (baud_rate == 2400)
      || (baud_rate == 4800)
      || (baud_rate == 9600)
      || (baud_rate == 19200)
      || (baud_rate == 38400)
      || (baud_rate == 57600)
      || (baud_rate == 115200)
    then baud_rate
    else 9600

module _ (K : Comlib) where
  abbrev pub int_max : ℕ
  int_max = 2 ^ (K.int_bits - 1) - 1

  -- The `switch` on the value of the handle.
  unfoldable pub comlib_pn : Handle → ℕ
  comlib_pn io_addr =
      if io_addr == 1
      then K.co_com1
      else if io_addr == 2
      then K.co_com2
      else if io_addr == 3
      then K.co_com3
      else if io_addr == 4
      then K.co_com4
      else K.co_com1

  unfoldable pub init_port : Handle → ℕ → K.State → ℤ × K.State
  unfolding comlib_pn known_baud
  init_port port baud_rate s =
      let (code, s') = K.comopen (comlib_pn port) (K.co_baud (known_baud baud_rate)) s in
      (if is_nonzero code then negsuc 0 else pos 0, s')

  unfoldable pub write_data : List ℕ → K.State → ℤ × K.State
  write_data octets s =
      if ltb int_max (length octets)
      then (negsuc 1, s)
      else (let (code, s') = K.comwrite octets s in
          (if is_nonzero code then negsuc 0 else pos 0, s'))

  -- A timeout in ticks of the system timer, as an `unsigned int`.
  abbrev pub timeout_ticks : ℤ → ℕ
  timeout_ticks timeout = pos_part timeout * 18 % 2 ^ K.int_bits

  unfoldable pub read_data : ℕ → ℤ → K.State → Reading K.State
  read_data num_bytes timeout s =
      if ltb int_max num_bytes || ltb int_max (timeout_ticks timeout)
      then record { code = negsuc 1; bytes = []; port = s }
      else (let prev_timeout = K.comgettimeout s in
          let r = K.comread num_bytes (K.comsettimeout (timeout_ticks timeout) s) in
          record {
            code = if is_nonzero r.code then negsuc 0 else pos 0;
            bytes = r.bytes;
            port = K.comsettimeout prev_timeout r.port;
          })

  unfoldable pub close_handle : K.State → ℤ × K.State
  close_handle s =
      let (code, s') = K.comclose s in (if is_nonzero code then negsuc 0 else pos 0, s')

  unfoldable pub flush_device : K.State → ℤ × K.State
  flush_device s = (pos 0, K.comflush s)
