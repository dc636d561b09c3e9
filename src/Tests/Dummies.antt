-- ===== src/Tests/Dummies.antt =====
-- The ports of the unit tests' platform.
use libmodem.Platform.Dummy.{
  static_bufsiz, local_tx_line, PortDesc, Model, open_handle, init_port, write_data, read_data,
  flush_device,
}
use libmodem.Platform.Dummy.Laws.{read_data-write_data, init_port-Carries, flush_device-Carries}
use libmodem.Platform.Dummy.Wiring.{forth, back, Carries}
use libmodem.Prelude.{
  ℕ, ◌≡◌, refl, false, true, none, List, [], ◌∷◌, ◌++◌, some, length, drop, replicate,
  length-replicate, arith,
}
use libmodem.Prelude.Int.{pos, negsuc}

abbrev unused : PortDesc
unused = record {
  tx_line = none;
  rx_line = none;
  bad_write = true;
  bad_read = false;
  force_rx_timeout = true;
  bad_close = pos 0;
  bad_flush = false;
  buf_pos_tx = 5;
  buf_pos_rx = 7;
}

abbrev zeros : List ℕ
zeros = replicate static_bufsiz 0

abbrev untouched : Model
untouched = record { local_tx = zeros; local_rx = zeros; port_model = λ i. unused }

abbrev first : Model
first = (init_port 1000 80 (open_handle 1000 80 0) 115200 untouched).1

abbrev second : Model
second = (init_port 1000 80 (open_handle 1000 80 1) 115200 first).1

init_port-Carries_example :
    ((init_port 1000 80 (open_handle 1000 80 0) 115200 untouched).0 ≡ pos 0)
    × ((init_port 1000 80 (open_handle 1000 80 1) 115200 first).0 ≡ pos 0)
    × Carries forth second [] [] zeros
    × Carries back second [] [] zeros
    × (init_port 1000 80 (open_handle 1000 80 2) 115200 untouched ≡ (negsuc 0, untouched))
init_port-Carries_example =
    init_port-Carries 1000 80 115200 untouched (omega arith)
      (length-replicate {0} {A = ℕ} static_bufsiz 0) (length-replicate {0} {A = ℕ} static_bufsiz 0)

abbrev lines : Carries forth second [] [] zeros
lines =
    (init_port-Carries 1000 80 115200 untouched (omega arith)
      (length-replicate {0} {A = ℕ} static_bufsiz 0)
      (length-replicate {0} {A = ℕ} static_bufsiz 0)).2

abbrev octets : List ℕ
octets = 1 ∷ 2 ∷ 3 ∷ []

read_data-write_data_example :
    (m' m'' : Model) × (write_data 1000 80 32 (open_handle 1000 80 0) octets second
      ≡ some (pos 0, m'))
    × (read_data 1000 80 32 (open_handle 1000 80 1) (length ([] ++ octets)) (pos 10) m'
        ≡ some (record { code = pos 0; bytes = [] ++ octets; port = m'' }))
    × Carries forth m'' ([] ++ ([] ++ octets)) [] (drop 3 zeros)
read_data-write_data_example =
    read_data-write_data 1000 80 32 forth second [] [] zeros octets (pos 10) (omega arith)
      (omega arith) lines (omega (arith, length-replicate {0} {A = ℕ} static_bufsiz 0))

-- Three bytes were sent and one was read.
abbrev port : PortDesc
port = record unused {
  tx_line = some local_tx_line;
  rx_line = some local_tx_line;
  bad_write = false;
  force_rx_timeout = false;
  buf_pos_tx = 3;
  buf_pos_rx = 1;
}

abbrev used : Model
used = record { local_tx = octets ++ replicate 3073 0; local_rx = zeros; port_model = λ i. port }

line : Carries forth used (1 ∷ []) (2 ∷ 3 ∷ []) (replicate 3073 0)
line = record {
  from = refl;
  to = refl;
  writes = refl;
  reads = refl;
  in_time = refl;
  holds = refl;
  whole = omega (arith, length-replicate {0} {A = ℕ} 3073 0);
  written = refl;
  read = refl;
}

flush_device-Carries_example :
    (m' : Model) × (flush_device 1000 80 (open_handle 1000 80 1) used ≡ some (pos 0, m'))
    × Carries forth m' [] (replicate 3 0) (replicate 3073 0)
flush_device-Carries_example =
    flush_device-Carries 1000 80 forth used (1 ∷ []) (2 ∷ 3 ∷ []) (replicate 3073 0) (omega arith)
      refl line
