-- ===== src/Tests/Loopback.antt =====
-- A line that works, as a platform that runs: what arrives is a list, and what is sent is kept.
use libmodem.Prelude.{
  ℕ, ◌≡◌, refl, ap, ◌∙◌, true, List, [], ◌++◌, length, take, drop, leb, ◌==◌, arith, if◌then◌else◌,
  length-append, ◌≤◌, min,
}
use libmodem.Prelude.Int.{pos, negsuc}
use libmodem.Modem.{OutputChannel}
use libmodem.Serial.Primitives.{Serprim, Reading, TimedReading}
use libmodem.Xmodem.Buffer.{take-append, drop-append}
use libmodem.Xmodem.Line.{IsLine}
use libmodem.Xmodem.Tx.Fill.{IsReader}

pub record Wire : Type 0 where
  pub arriving : List ℕ
  pub sent : List ℕ

abbrev pub wire : List ℕ → List ℕ → Wire
wire xs ys = record { arriving = xs; sent = ys }

-- A read that asks for more than arrives takes what there is and times out.
abbrev pub wire_read : ℕ → Wire → Reading Wire
wire_read n s =
    if leb n (length s.arriving)
    then record { code = pos 0; bytes = take n s.arriving; port = wire (drop n s.arriving) s.sent }
    else record { code = negsuc 0; bytes = s.arriving; port = wire [] s.sent }

abbrev pub wire_timed_read : ℕ → Wire → TimedReading Wire
wire_timed_read n s =
    let r = wire_read n s in
    record { code = r.code; bytes = r.bytes; elapsed = pos 1; port = r.port }

abbrev pub loopback : Serprim
loopback = record {
  int_bits = 32;
  size_bits = 64;
  Port = Wire;
  open_handle = λ port_no s. (port_no, s);
  handle_valid = λ h. h == 1;
  init_port = λ h baud_rate s. (pos 0, wire [] []);
  write_data = λ h octets s. (pos 0, wire s.arriving (s.sent ++ octets));
  read_data = λ h n t s. wire_read n s;
  read_data_get_elapsed_time = λ h n t s. wire_timed_read n s;
  close_handle = λ h s. (pos 0, s);
  flush_device = λ h s. (pos 0, s);
}

enough_arrives :
    (s : Wire) (xs rest : List ℕ) (n : ℕ)
    → s.arriving ≡ xs ++ rest
    → n ≡ length xs
    → wire_read n s ≡ record { code = pos 0; bytes = xs; port = wire rest s.sent }
enough_arrives s xs rest n e f =
    let fits : leb n (length s.arriving) ≡ true =
      le_test n (length s.arriving) (omega (arith, ap (length {0}) e, length-append {0} xs rest)) in
    rw (fits, ap (take n) e ∙ take-append xs rest n f, ap (drop n) e ∙ drop-append xs rest n f)
  where
    le_test : (a b : ℕ) → a ≤ b → leb a b ≡ true
    le_test a b h = ground arith

pub all_read :
    (s : Wire) (xs rest : List ℕ) (n : ℕ)
    → s.arriving ≡ xs ++ rest
    → n ≡ length xs
    → let r = wire_read n s in
      (r.code ≡ pos 0) × (r.bytes ≡ xs) × (r.port.arriving ≡ rest) × (r.port.sent ≡ s.sent)
all_read s xs rest n e f = rw (enough_arrives s xs rest n e f) (refl, refl, refl, refl)

abbrev pub loopback-IsLine : IsLine loopback 1
loopback-IsLine = record {
  incoming = λ s. s.arriving;
  later = λ s. [];
  outgoing = λ s. s.sent;
  valid = refl;
  write_code = λ xs s. refl;
  write_out = λ xs s. refl;
  write_in = λ xs s. refl;
  write_later = λ xs s. refl;
  flush_out = λ s. refl;
  flush_in = λ s. refl;
  flush_later = λ s. refl;
  read = λ xs rest n t s e f. let (a, b, c, d) = all_read s xs rest n e f in (a, b, c, d, refl);
  timed_read =
      λ xs rest n t s e f. let (a, b, c, d) = all_read s xs rest n e f in (a, b, c, d, refl);
}

-- A channel that hands out the list that is its state.
abbrev pub list_reader : OutputChannel (List ℕ)
list_reader n last file =
    let rest = drop last file in
    record { result = pos (min n (length rest)); bytes = take n rest; chan = rest }

abbrev pub list_reader-IsReader : IsReader list_reader
list_reader-IsReader = record {
  file = λ c. c;
  Serves = λ last c. last ≤ length c;
  stays = λ n last next c h h'. h';
  moves = λ n last c h. refl;
  gives = λ n last c h. refl;
  counts = λ n last c h. refl;
}
