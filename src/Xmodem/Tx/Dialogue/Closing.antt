-- ===== src/Xmodem/Tx/Dialogue/Closing.antt =====
-- The end of `xmodem_tx` of src/xmodem.c, on a line that pauses.
use libmodem.Modem.{eot, ack, can, serial_to_modem_error}
use libmodem.Prelude.{
  ℕ, zero, suc, ◌<◌, ◌≡◌, refl, sym, ap, ◌∙◌, List, [], ◌∷◌, ◌++◌, length, arith, append_assoc,
}
use libmodem.Serial.Primitives.{Serprim, Handle}
use libmodem.Xmodem.Line.{IsLine, snd_ok, rcv_ok}
use libmodem.Xmodem.Pauses.{Ending, Pauses, rcv_late}
use libmodem.Xmodem.Session.{Session, Run, ok, returned}
use libmodem.Modem.{ModemError}
use libmodem.Xmodem.Tx.{eot_loop}
use libmodem.Xmodem.Tx.Dialogue.{Closes}
use libmodem.Xmodem.Tx.Phases.{ne_test}

module _ {P : Serprim} {h : Handle} (L : IsLine P h) (z : Ending) {C : Type 0} where
  -- A run that returns the code of the end, and what it has read and sent.
  abbrev pub Reaches : Run (Session P C) ModemError → P.Port → List ℕ → Type 0
  Reaches run p out =
      (s' : Session P C) × (returned run ≡ ok z.outcome s')
      × (L.incoming s'.port ≡ z.unread)
      × (L.later s'.port ≡ z.behind)
      × (L.outgoing s'.port ≡ L.outgoing p ++ out)

  pub closes_lem :
      (D : Pauses L) (fuel code : ℕ) {now out : List ℕ} {later : List (List ℕ)} (s : Session P C)
      → Closes z now later out
      → length now < fuel
      → L.incoming s.port ≡ now
      → L.later s.port ≡ later
      → Reaches (eot_loop h fuel code s) s.port out
  unfolding eot_loop serial_to_modem_error
  closes_lem D zero code s course enough arrives pauses = absurd (omega arith)
  closes_lem D (suc fuel) code s (Closes.acknowledged o e e' e1) enough arrives pauses =
      let (p1, sent, in1, out1, quiet1) = snd_ok L (eot ∷ []) s in
      let (p2, got, in2, out2, quiet2) =
        rcv_ok L (ack ∷ []) z.unread 1 60 (record s { port = p1 }) (in1 ∙ arrives ∙ e) refl in
      (
        record s { port = p2 },
        rw (sent, got, o) refl,
        in2,
        quiet2 ∙ quiet1 ∙ pauses ∙ e',
        out2 ∙ out1 ∙ ap (λ t. L.outgoing s.port ++ t) (sym e1),
      )
  closes_lem D (suc fuel) code s (Closes.refused o e e' e1) enough arrives pauses =
      let (p1, sent, in1, out1, quiet1) = snd_ok L (eot ∷ []) s in
      let (p2, got, in2, out2, quiet2) =
        rcv_ok L (can ∷ []) z.unread 1 60 (record s { port = p1 }) (in1 ∙ arrives ∙ e) refl in
      (
        record s { port = p2 },
        rw (sent, got, o) refl,
        in2,
        quiet2 ∙ quiet1 ∙ pauses ∙ e',
        out2 ∙ out1 ∙ ap (λ t. L.outgoing s.port ++ t) (sym e1),
      )
  closes_lem D (suc fuel) code s (Closes.ignored o e e' e1) enough arrives pauses =
      let (p1, sent, in1, out1, quiet1) = snd_ok L (eot ∷ []) s in
      let (p2, got, in2, out2, quiet2) =
        rcv_late D [] z.unread z.behind 1 60 (record s { port = p1 }) (in1 ∙ arrives ∙ e)
          (quiet1 ∙ pauses ∙ e') (omega arith) in
      (
        record s { port = p2 },
        rw (sent, got, o) refl,
        in2,
        quiet2,
        out2 ∙ out1 ∙ ap (λ t. L.outgoing s.port ++ t) (sym e1),
      )
  closes_lem D (suc fuel) code s (Closes.misheard {now' = now'} {out' = out'} x (q, q') course e e1)
        enough arrives pauses =
      let (p1, sent, in1, out1, quiet1) = snd_ok L (eot ∷ []) s in
      let (p2, got, in2, out2, quiet2) =
        rcv_ok L (x ∷ []) now' 1 60 (record s { port = p1 }) (in1 ∙ arrives ∙ e) refl in
      let (s', run, in3, quiet3, out3) =
        closes_lem D fuel x (record s { port = p2 }) course (omega (arith, ap (length {0}) e)) in2
          (quiet2 ∙ quiet1 ∙ pauses) in
      (
        s',
        rw (sent, got, ne_test x ack q, ne_test x can q') run,
        in3,
        quiet3,
        out3
            ∙ ap (λ t. t ++ out') (out2 ∙ out1)
            ∙ append_assoc (L.outgoing s.port) (eot ∷ []) out'
            ∙ ap (λ t. L.outgoing s.port ++ t) (sym e1),
      )
