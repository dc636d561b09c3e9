-- ===== src/Tests/SlowLoopback.antt =====
-- A line that works and pauses, as a platform that runs: what arrives comes in portions.
use libmodem.Prelude.{
  ℕ, ◌<◌, ◌≡◌, ◌≤◌, refl, ap, ◌∙◌, true, false, List, [], ◌∷◌, ◌++◌, length, take, drop, leb, ◌==◌,
  arith, if◌then◌else◌, length-append,
}
use libmodem.Prelude.Int.{pos, negsuc}
use libmodem.Serial.Primitives.{Serprim, Reading, TimedReading}
use libmodem.Xmodem.Buffer.{take-append, drop-append}
use libmodem.Xmodem.Line.{IsLine}
use libmodem.Xmodem.Pauses.{Pauses}

pub record SlowWire : Type 0 where
  pub arriving : List ℕ
  pub portions : List (List ℕ)
  pub sent : List ℕ

abbrev pub slow : List ℕ → List (List ℕ) → List ℕ → SlowWire
slow xs yss zs = record { arriving = xs; portions = yss; sent = zs }

abbrev pub after_pause : SlowWire → SlowWire
after_pause s = elim s.portions [ [] ↦ slow [] [] s.sent | xs ∷ yss ↦ slow xs yss s.sent ]

-- A read that asks for more than arrives takes what there is, and the pause is over.
abbrev pub slow_read : ℕ → SlowWire → Reading SlowWire
slow_read n s =
    if leb n (length s.arriving)
    then record {
      code = pos 0;
      bytes = take n s.arriving;
      port = slow (drop n s.arriving) s.portions s.sent;
    }
    else record { code = negsuc 0; bytes = s.arriving; port = after_pause s }

abbrev pub slow_timed_read : ℕ → SlowWire → TimedReading SlowWire
slow_timed_read n s =
    let r = slow_read n s in
    record { code = r.code; bytes = r.bytes; elapsed = pos 1; port = r.port }

abbrev pub slow_loopback : Serprim
slow_loopback = record {
  int_bits = 32;
  size_bits = 64;
  Port = SlowWire;
  open_handle = λ port_no s. (port_no, s);
  handle_valid = λ h. h == 1;
  init_port = λ h baud_rate s. (pos 0, slow [] [] []);
  write_data = λ h octets s. (pos 0, slow s.arriving s.portions (s.sent ++ octets));
  read_data = λ h n t s. slow_read n s;
  read_data_get_elapsed_time = λ h n t s. slow_timed_read n s;
  close_handle = λ h s. (pos 0, s);
  flush_device = λ h s. (pos 0, s);
}

enough_arrives :
    (s : SlowWire) (xs rest : List ℕ) (n : ℕ)
    → s.arriving ≡ xs ++ rest
    → n ≡ length xs
    → slow_read n s ≡ record { code = pos 0; bytes = xs; port = slow rest s.portions s.sent }
enough_arrives s xs rest n e f =
    let fits : leb n (length s.arriving) ≡ true =
      le_test n (length s.arriving) (omega (arith, ap (length {0}) e, length-append {0} xs rest)) in
    rw (fits, ap (take n) e ∙ take-append xs rest n f, ap (drop n) e ∙ drop-append xs rest n f)
  where
    le_test : (a b : ℕ) → a ≤ b → leb a b ≡ true
    le_test a b h = ground arith

pub all_read :
    (s : SlowWire) (xs rest : List ℕ) (n : ℕ)
    → s.arriving ≡ xs ++ rest
    → n ≡ length xs
    → let r = slow_read n s in
      (r.code ≡ pos 0)
      × (r.bytes ≡ xs)
      × (r.port.arriving ≡ rest)
      × (r.port.sent ≡ s.sent)
      × (r.port.portions ≡ s.portions)
all_read s xs rest n e f = rw (enough_arrives s xs rest n e f) (refl, refl, refl, refl, refl)

abbrev pub slow-IsLine : IsLine slow_loopback 1
slow-IsLine = record {
  incoming = λ s. s.arriving;
  later = λ s. s.portions;
  outgoing = λ s. s.sent;
  valid = refl;
  write_code = λ xs s. refl;
  write_out = λ xs s. refl;
  write_in = λ xs s. refl;
  write_later = λ xs s. refl;
  flush_out = λ s. refl;
  flush_in = λ s. refl;
  flush_later = λ s. refl;
  read = λ xs rest n t s e f. all_read s xs rest n e f;
  timed_read = λ xs rest n t s e f. all_read s xs rest n e f;
}

too_few :
    (s : SlowWire) (next : List ℕ) (others : List (List ℕ)) (n : ℕ)
    → s.portions ≡ next ∷ others
    → length s.arriving < n
    → slow_read n s ≡ record { code = negsuc 0; bytes = s.arriving; port = slow next others s.sent }
too_few s next others n e h = rw (more_test n (length s.arriving) h, e) refl
  where
    more_test : (a b : ℕ) → b < a → leb a b ≡ false
    more_test a b h = ground arith

pub slow-Pauses : Pauses slow-IsLine
slow-Pauses = record {
  times_out =
      λ next others n t s e h. rw (too_few s next others n e h) (refl, refl, refl, refl, refl);
  timed_out =
      λ next others n t s e h. rw (too_few s next others n e h) (refl, refl, refl, refl, refl);
}
