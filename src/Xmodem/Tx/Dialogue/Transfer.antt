-- ===== src/Xmodem/Tx/Dialogue/Transfer.antt =====
-- The whole of `xmodem_tx` of src/xmodem.c on a line that pauses.
use libmodem.Modem.{
  nul, start_char, modem_no_errors, ModemError, OutputChannel, XferMode, serial_to_modem_error,
}
use libmodem.Prelude.{
  ℕ, zero, suc, ◌+◌, ◌-◌, ◌%◌, ◌^◌, ◌≤◌, ◌<◌, ◌≡◌, refl, sym, ap, ◌∙◌, List, [], ◌∷◌, ◌++◌, length,
  drop, arith, append-nil, length-drop,
}
use libmodem.Serial.Primitives.{Serprim, Handle}
use libmodem.Xmodem.Buffer.{at}
use libmodem.Xmodem.Frame.{size_of, trailer_size}
use libmodem.Xmodem.Line.{IsLine, flush_ok, timed_rcv_ok}
use libmodem.Xmodem.Pauses.{Ending, Pauses, timed_rcv_late}
use libmodem.Xmodem.Session.{
  Session, Run, ok, and_then, ◌>>=◌, ◌>>◌, return, store, to_unsigned, to_signed,
}
use libmodem.Xmodem.Tx.{xmodem_tx, packet_loop, eot_loop, tx_start, header}
use libmodem.Xmodem.Tx.Dialogue.{Dialogue}
use libmodem.Xmodem.Tx.Dialogue.Closing.{Reaches}
use libmodem.Xmodem.Tx.Dialogue.Talk.{talks_lem}
use libmodem.Xmodem.Tx.Fill.{IsReader}
use libmodem.Xmodem.Tx.Phases.{request, ne_test, choose, is_requested}
use libmodem.Xmodem.Tx.Transfer.{header_lem, tx_start-vars}
use libmodem.Xmodem.Wait.{ready_loop}

module _ {P : Serprim} {h : Handle} {C : Type 0} (channel : OutputChannel C) (L : IsLine P h)
    (R : IsReader channel) (D : Pauses L) (z : Ending) (f : XferMode) (fuel : ℕ) where
  -- What follows the wait for the request.
  abbrev answering : ModemError → Session P C → Run (Session P C) ModemError
  answering status = elim status [
    | modem_no_errors ↦ (do
      store start_char (header f)
      v ← packet_loop h channel fuel (tx_start f)
      eot_loop h fuel v.rx_code)
    | other ↦ return other
  ]

  dialogue_lem :
      (k : ℕ) {now out : List ℕ} {later : List (List ℕ)} (elapsed code : ℕ) (buffer : List ℕ)
      (c : C) (p : P.Port)
      → Dialogue P.int_bits z f (R.file c) now later out
      → length now < k
      → length now < fuel
      → R.Serves 0 c
      → 3 + size_of f + trailer_size f ≤ length buffer
      → L.incoming p ≡ now
      → L.later p ≡ later
      → Reaches L z (and_then (ready_loop h f k elapsed code (at P buffer c p)) answering) p out
  unfolding ready_loop serial_to_modem_error
  dialogue_lem zero elapsed code buffer c p course few few' ready room arrives pauses =
      absurd (omega arith)
  dialogue_lem (suc k) {out = out} elapsed code buffer c p
        (Dialogue.requested {now' = now'} course e) few few' ready room arrives pauses =
      let timeout = to_signed P.int_bits ((60 + 2 ^ P.int_bits - elapsed) % 2 ^ P.int_bits) in
      let (p1, t, got, in1, out1, quiet1) =
        timed_rcv_ok L timeout (request f ∷ []) now' 1 (at P buffer c p) (arrives ∙ e) refl in
      let (s', run, in2, quiet2, out2) =
        talks_lem channel L R D z fuel fuel c p1 0 nul (drop 3 buffer) course
          (omega (arith, ap (length {0}) e)) (omega (arith, ap (length {0}) e)) ready
          (omega (arith, length-drop {0} 3 buffer)) in1 (quiet1 ∙ pauses) in
      (
        s',
        rw
            (
              got,
              choose f (request f),
              is_requested f (request f) refl,
              header_lem {P = P} c p1 f buffer (omega arith),
              tx_start-vars f,
            )
            run,
        in2,
        quiet2,
        out2 ∙ ap (λ t. t ++ out) out1,
      )
  dialogue_lem (suc k) {out = out} elapsed code buffer c p
        (Dialogue.not_meant {now' = now'} x q course e) few few' ready room arrives pauses =
      let timeout = to_signed P.int_bits ((60 + 2 ^ P.int_bits - elapsed) % 2 ^ P.int_bits) in
      let (p1, t, got, in1, out1, quiet1) =
        timed_rcv_ok L timeout (x ∷ []) now' 1 (at P buffer c p) (arrives ∙ e) refl in
      let (s', run, in2, quiet2, out2) =
        dialogue_lem k ((elapsed + to_unsigned P.int_bits t) % 2 ^ P.int_bits) x buffer c p1 course
          (omega (arith, ap (length {0}) e)) (omega (arith, ap (length {0}) e)) ready room in1
          (quiet1 ∙ pauses) in
      (
        s',
        rw (got, choose f x, ne_test x (request f) q) run,
        in2,
        quiet2,
        out2 ∙ ap (λ t. t ++ out) out1,
      )
  dialogue_lem (suc k) {out = out} elapsed code buffer c p (Dialogue.not_asked o e e' e1) few few'
        ready room arrives pauses =
      let timeout = to_signed P.int_bits ((60 + 2 ^ P.int_bits - elapsed) % 2 ^ P.int_bits) in
      let (p1, t, got, in1, out1, quiet1) =
        timed_rcv_late D timeout z.unread z.behind (at P buffer c p) (arrives ∙ e) (pauses ∙ e') in
      (
        at P buffer c p1,
        rw (got, o) refl,
        in1,
        quiet1,
        out1 ∙ sym (append-nil _) ∙ ap (λ t. L.outgoing p ++ t) (sym e1),
      )

-- On a line whose reads time out where it pauses, with a channel that hands out a file and may be
-- asked for it, a buffer as large as the mode's packet and fuel for every character that comes
-- before the first pause: if what comes is that of a dialogue of the protocol for the file, then
-- `xmodem_tx` returns the dialogue's code (no error, a cancellation or a timeout), has sent the
-- dialogue's bytes, and has read nothing further.
pub xmodem_tx-Dialogue :
    {P : Serprim} {h : Handle} {C : Type 0} {channel : OutputChannel C} (L : IsLine P h)
    (D : Pauses L) (R : IsReader channel) (f : XferMode) (fuel : ℕ) (z : Ending)
    (now out buffer : List ℕ) (later : List (List ℕ)) (c : C) (p : P.Port)
    → R.Serves 0 c
    → Dialogue P.int_bits z f (R.file c) now later out
    → L.incoming p ≡ now
    → L.later p ≡ later
    → 3 + size_of f + trailer_size f ≤ length buffer
    → length now < fuel
    → (s' : Session P C) × (xmodem_tx h channel f fuel (at P buffer c p) ≡ ok z.outcome s')
      × (L.incoming s'.port ≡ z.unread)
      × (L.later s'.port ≡ z.behind)
      × (L.outgoing s'.port ≡ L.outgoing p ++ out)
unfolding xmodem_tx
xmodem_tx-Dialogue {P} {h} {channel = channel} L D R f fuel z now out buffer later c p ready course
      arrives pauses room enough =
    let (p1, status, flushed, in1, out1, quiet1) = flush_ok L (at P buffer c p) in
    let (s', run, in2, quiet2, out2) =
      dialogue_lem channel L R D z f fuel fuel 0 nul buffer c p1 course enough enough ready room
        (in1 ∙ arrives) (quiet1 ∙ pauses) in
    (s', rw flushed run, in2, quiet2, out2 ∙ ap (λ t. t ++ out) out1)
