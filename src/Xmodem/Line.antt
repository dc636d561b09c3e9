-- ===== src/Xmodem/Line.antt =====
-- A serial line that works, as src/serprim.h documents its primitives, and what the steps of a
-- session do on it.
use libmodem.Prelude.{ℕ, ◌≡◌, refl, true, false, none, some, List, ◌++◌, length}
use libmodem.Prelude.Int.{ℤ, pos, negsuc, pos_part}
use libmodem.Serial.{
  SerialStatus, serial_no_errors, serial_snd, serial_rcv, serial_flush, clamp_timeout,
}
use libmodem.Serial.Primitives.{Serprim, Handle}
use libmodem.Xmodem.Session.{Session, ok, snd, flush, rcv}

-- The bytes that are going to arrive before the next pause, those that arrive behind each of the
-- pauses to come, and those that were sent. A read that asks for bytes that
-- arrive in time returns 0 with them; a write returns 0 and sends all its bytes; a flush drops
-- nothing of what arrives behind it.
pub record IsLine (P : Serprim) (h : Handle) : Type 0 where
  pub incoming : P.Port → List ℕ
  pub later : P.Port → List (List ℕ)
  pub outgoing : P.Port → List ℕ
  pub valid : P.handle_valid h ≡ true
  pub write_code : (xs : List ℕ) (s : P.Port) → (P.write_data h xs s).0 ≡ pos 0
  pub write_out : (xs : List ℕ) (s : P.Port) → outgoing (P.write_data h xs s).1 ≡ outgoing s ++ xs
  pub write_in : (xs : List ℕ) (s : P.Port) → incoming (P.write_data h xs s).1 ≡ incoming s
  pub write_later : (xs : List ℕ) (s : P.Port) → later (P.write_data h xs s).1 ≡ later s
  pub flush_out : (s : P.Port) → outgoing (P.flush_device h s).1 ≡ outgoing s
  pub flush_in : (s : P.Port) → incoming (P.flush_device h s).1 ≡ incoming s
  pub flush_later : (s : P.Port) → later (P.flush_device h s).1 ≡ later s
  pub read :
      (xs rest : List ℕ) (n t : ℕ) (s : P.Port)
      → incoming s ≡ xs ++ rest
      → n ≡ length xs
      → let r = P.read_data h n (pos t) s in
        (r.code ≡ pos 0)
        × (r.bytes ≡ xs)
        × (incoming r.port ≡ rest)
        × (outgoing r.port ≡ outgoing s)
        × (later r.port ≡ later s)
  pub timed_read :
      (xs rest : List ℕ) (n : ℕ) (t : ℕ) (s : P.Port)
      → incoming s ≡ xs ++ rest
      → n ≡ length xs
      → let r = P.read_data_get_elapsed_time h n (pos t) s in
        (r.code ≡ pos 0)
        × (r.bytes ≡ xs)
        × (incoming r.port ≡ rest)
        × (outgoing r.port ≡ outgoing s)
        × (later r.port ≡ later s)

pub clamp_timeout-pos_part : (timeout : ℤ) → clamp_timeout timeout ≡ pos (pos_part timeout)
clamp_timeout-pos_part (pos n) = refl
clamp_timeout-pos_part (negsuc n) = refl

module _ {P : Serprim} {h : Handle} (L : IsLine P h) {C : Type 0} where
  -- Sending puts the bytes on the line.
  pub snd_ok :
      (xs : List ℕ) (s : Session P C)
      → (port : P.Port) × (snd h xs s ≡ ok serial_no_errors (record s { port = port }))
        × (L.incoming port ≡ L.incoming s.port)
        × (L.outgoing port ≡ L.outgoing s.port ++ xs)
        × (L.later port ≡ L.later s.port)
  unfolding snd serial_snd
  snd_ok xs s = (
    (P.write_data h xs s.port).1,
    rw (L.valid, L.write_code xs s.port),
    L.write_in xs s.port,
    L.write_out xs s.port,
    L.write_later xs s.port,
  )

  -- A flush leaves the line alone, whatever it returns.
  pub flush_ok :
      (s : Session P C)
      → (port : P.Port) × (status : SerialStatus) × (flush h s
          ≡ ok status (record s { port = port }))
        × (L.incoming port ≡ L.incoming s.port)
        × (L.outgoing port ≡ L.outgoing s.port)
        × (L.later port ≡ L.later s.port)
  unfolding flush serial_flush
  flush_ok s = (
    (P.flush_device h s.port).1,
    (serial_flush P h s.port).0,
    rw L.valid refl,
    L.flush_in s.port,
    L.flush_out s.port,
    L.flush_later s.port,
  )

  -- Receiving takes the bytes off the line.
  pub rcv_ok :
      (xs rest : List ℕ) (n t : ℕ) (s : Session P C)
      → L.incoming s.port ≡ xs ++ rest
      → n ≡ length xs
      → (port : P.Port) × (rcv h n (pos t) false s
          ≡ ok
              (record { status = serial_no_errors; bytes = xs; time_spent = none; port = port })
              (record s { port = port }))
        × (L.incoming port ≡ rest)
        × (L.outgoing port ≡ L.outgoing s.port)
        × (L.later port ≡ L.later s.port)
  unfolding rcv serial_rcv
  rcv_ok xs rest n t s arrives e =
      let (code, bytes, left, same, quiet) = L.read xs rest n t s.port arrives e in
      ((P.read_data h n (pos t) s.port).port, rw (L.valid, code, bytes), left, same, quiet)

  -- The same with the elapsed time, at any timeout: a negative one is taken for 0.
  pub timed_rcv_ok :
      (timeout : ℤ) (xs rest : List ℕ) (n : ℕ) (s : Session P C)
      → L.incoming s.port ≡ xs ++ rest
      → n ≡ length xs
      → (port : P.Port) × (elapsed : ℤ) × (rcv h n timeout true s
          ≡ ok
              (record {
                status = serial_no_errors;
                bytes = xs;
                time_spent = some elapsed;
                port = port;
              })
              (record s { port = port }))
        × (L.incoming port ≡ rest)
        × (L.outgoing port ≡ L.outgoing s.port)
        × (L.later port ≡ L.later s.port)
  unfolding rcv serial_rcv
  timed_rcv_ok timeout xs rest n s arrives e =
      let t = pos_part timeout in
      let (code, bytes, left, same, quiet) = L.timed_read xs rest n t s.port arrives e in
      (
        (P.read_data_get_elapsed_time h n (pos t) s.port).port,
        (P.read_data_get_elapsed_time h n (pos t) s.port).elapsed,
        rw (L.valid, clamp_timeout-pos_part timeout, code, bytes),
        left,
        same,
        quiet,
      )
