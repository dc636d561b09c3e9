-- ===== src/Xmodem/Pauses.antt =====
-- Reads that meet a pause, as src/serprim.h documents them, and `purge` of src/xmodem.c on such a
-- line.
use libmodem.Modem.{ModemError}
use libmodem.Prelude.{
  ℕ, zero, suc, ◌<◌, ◌≡◌, refl, ◌∙◌, sym, false, true, some, none, List, [], ◌∷◌, length, arith,
  subst,
}
use libmodem.Prelude.Int.{ℤ, pos, negsuc, pos_part}
use libmodem.Serial.{serial_timeout, serial_rcv}
use libmodem.Serial.Primitives.{Serprim, Handle}
use libmodem.Xmodem.Line.{IsLine, rcv_ok, clamp_timeout-pos_part}
use libmodem.Xmodem.Session.{Session, ok, rcv}
use libmodem.Xmodem.Wait.{purge}

-- How a transfer ends: its code, and what is left to come, before the next pause and behind it.
pub record Ending : Type 0 where
  pub outcome : ModemError
  pub unread : List ℕ
  pub behind : List (List ℕ)

-- A read that asks for more than arrives before the next pause times out: it returns -1 with what
-- arrived, and the pause is over.
pub record Pauses {P : Serprim} {h : Handle} (L : IsLine P h) : Type 0 where
  pub times_out :
      (next : List ℕ) (others : List (List ℕ)) (n t : ℕ) (s : P.Port)
      → L.later s ≡ next ∷ others
      → length (L.incoming s) < n
      → let r = P.read_data h n (pos t) s in
        (r.code ≡ negsuc 0)
        × (r.bytes ≡ L.incoming s)
        × (L.incoming r.port ≡ next)
        × (L.outgoing r.port ≡ L.outgoing s)
        × (L.later r.port ≡ others)
  pub timed_out :
      (next : List ℕ) (others : List (List ℕ)) (n t : ℕ) (s : P.Port)
      → L.later s ≡ next ∷ others
      → length (L.incoming s) < n
      → let r = P.read_data_get_elapsed_time h n (pos t) s in
        (r.code ≡ negsuc 0)
        × (r.bytes ≡ L.incoming s)
        × (L.incoming r.port ≡ next)
        × (L.outgoing r.port ≡ L.outgoing s)
        × (L.later r.port ≡ others)

module _ {P : Serprim} {h : Handle} {L : IsLine P h} (D : Pauses L) {C : Type 0} where
  -- Receiving times out with the bytes that came before the pause.
  pub rcv_late :
      (xs next : List ℕ) (others : List (List ℕ)) (n t : ℕ) (s : Session P C)
      → L.incoming s.port ≡ xs
      → L.later s.port ≡ next ∷ others
      → length xs < n
      → (port : P.Port) × (rcv h n (pos t) false s
          ≡ ok
              (record { status = serial_timeout; bytes = xs; time_spent = none; port = port })
              (record s { port = port }))
        × (L.incoming port ≡ next)
        × (L.outgoing port ≡ L.outgoing s.port)
        × (L.later port ≡ others)
  unfolding rcv serial_rcv
  rcv_late xs next others n t s arrives pauses few =
      let (code, bytes, left, same, quiet) =
        D.times_out next others n t s.port pauses (subst (λ x. length x < n) (sym arrives) few) in
      (
        (P.read_data h n (pos t) s.port).port,
        rw (L.valid, code, bytes ∙ arrives),
        left,
        same,
        quiet,
      )

  -- The same with the elapsed time, for a byte.
  pub timed_rcv_late :
      (timeout : ℤ) (next : List ℕ) (others : List (List ℕ)) (s : Session P C)
      → L.incoming s.port ≡ []
      → L.later s.port ≡ next ∷ others
      → (port : P.Port) × (elapsed : ℤ) × (rcv h 1 timeout true s
          ≡ ok
              (record {
                status = serial_timeout;
                bytes = [];
                time_spent = some elapsed;
                port = port;
              })
              (record s { port = port }))
        × (L.incoming port ≡ next)
        × (L.outgoing port ≡ L.outgoing s.port)
        × (L.later port ≡ others)
  unfolding rcv serial_rcv
  timed_rcv_late timeout next others s arrives pauses =
      let t = pos_part timeout in
      let r = P.read_data_get_elapsed_time h 1 (pos t) s.port in
      let (code, bytes, left, same, quiet) =
        D.timed_out next others 1 t s.port pauses
          (subst (λ x. length x < 1) (sym arrives) (omega arith)) in
      (
        r.port,
        r.elapsed,
        rw (L.valid, clamp_timeout-pos_part timeout, code, bytes ∙ arrives),
        left,
        same,
        quiet,
      )

  -- `purge` drops what comes before the next pause.
  pub purge-late :
      (fuel : ℕ) (junk next : List ℕ) (others : List (List ℕ)) (s : Session P C)
      → length junk < fuel
      → L.incoming s.port ≡ junk
      → L.later s.port ≡ next ∷ others
      → (port : P.Port) × (purge h fuel s ≡ ok tt (record s { port = port }))
        × (L.incoming port ≡ next)
        × (L.outgoing port ≡ L.outgoing s.port)
        × (L.later port ≡ others)
  unfolding purge
  purge-late zero junk next others s few arrives pauses = absurd (omega arith)
  purge-late (suc fuel) [] next others s few arrives pauses =
      let (port, got, left, same, quiet) =
        rcv_late [] next others 1 1 s arrives pauses (omega arith) in
      (port, rw got refl, left, same, quiet)
  purge-late (suc fuel) (x ∷ junk) next others s few arrives pauses =
      let (p1, got, in1, out1, quiet1) = rcv_ok L (x ∷ []) junk 1 1 s arrives refl in
      let (port, rest, left, same, quiet) =
        purge-late fuel junk next others (record s { port = p1 }) (omega arith) in1
          (quiet1 ∙ pauses) in
      (port, rw got rest, left, same ∙ out1, quiet)
