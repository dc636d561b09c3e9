-- ===== src/Tests/Platforms.antt =====
-- The platforms over small libraries.
use libmodem.Platform.Dos.{Comlib, open_handle, init_port}
use libmodem.Platform.Dos.Laws.{init_port-open_handle}
use libmodem.Prelude.{ℕ, ◌≡◌, []}
use libmodem.Prelude.Int.{pos}

-- A library whose state is the timeout that is set.
abbrev comlib : Comlib
comlib = record {
  int_bits = 16;
  State = ℕ;
  co_com1 = 0;
  co_com2 = 1;
  co_com3 = 2;
  co_com4 = 3;
  co_baud = λ rate. rate;
  comopen = λ port rate s. (pos port, s);
  comwrite = λ octets s. (pos 0, s);
  comread = λ n s. record { code = pos 1; bytes = []; port = s };
  comclose = λ s. (pos 0, s);
  comflush = λ s. s;
  comgettimeout = λ s. s;
  comsettimeout = λ t s. t;
}

init_port-open_handle_example :
    init_port comlib (open_handle 2) 9600 7 ≡ init_port comlib (open_handle 1) 9600 7
init_port-open_handle_example = init_port-open_handle comlib 2 9600 7
