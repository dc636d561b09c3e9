-- ===== src/Xmodem/Tx/Dialogue/Talk.antt =====
-- The packet loop of `xmodem_tx` of src/xmodem.c and what follows it, on a line that pauses.
use libmodem.Modem.{
  start_char, data_start, ack, nak, sent_can, modem_timeout, ModemError, OutputChannel, XferMode,
  serial_to_modem_error,
}
use libmodem.Prelude.{
  ℕ, zero, suc, ◌+◌, ◌-◌, ◌%◌, ◌^◌, ◌≤◌, ◌<◌, ◌≡◌, ◌≢◌, refl, sym, ap, ◌∙◌, false, List, [], ◌∷◌,
  ◌++◌, length, drop, ltb, arith, append_assoc, lt→ltb, subst,
}
use libmodem.Serial.Primitives.{Serprim, Handle}
use libmodem.Xmodem.Buffer.{at, load_ok}
use libmodem.Xmodem.Frame.{start_of, size_of, trailer_size, settle, vars, framed, checked}
use libmodem.Xmodem.Line.{IsLine, snd_ok, flush_ok}
use libmodem.Xmodem.Pauses.{Ending, Pauses, rcv_late}
use libmodem.Xmodem.Session.{Session, Run, stop, and_then}
use libmodem.Xmodem.Tx.{TxVars, packet_loop, eot_loop, send_and_wait, interpret}
use libmodem.Xmodem.Tx.Dialogue.{Talks}
use libmodem.Xmodem.Tx.Dialogue.Closing.{Reaches, closes_lem}
use libmodem.Xmodem.Tx.Fill.{IsReader}
use libmodem.Xmodem.Tx.Packets.{need-le, ltb_of_le}
use libmodem.Xmodem.Tx.Phases.{ne_test}
use libmodem.Xmodem.Tx.Round.{round_lem, round_sends, interpret-ack}

-- Any other answer ends the transfer.
interpret-other :
    {P : Serprim} {C : Type 0} (v : TxVars) (s : Session P C)
    → v.rx_code ≢ ack
    → v.rx_code ≢ nak
    → interpret v s ≡ stop sent_can s
unfolding interpret
interpret-other v s q q' = rw (ne_test v.rx_code ack q, ne_test v.rx_code nak q') refl

-- A packet that is sent and gets no answer.
send_late :
    {P : Serprim} {h : Handle} {L : IsLine P h} (D : Pauses L) {C : Type 0} (c : C) (p : P.Port)
    (v : TxVars) (size : ℕ) (packet rest next : List ℕ) (others : List (List ℕ))
    → size ≡ length packet
    → L.incoming p ≡ []
    → L.later p ≡ next ∷ others
    → (p' : P.Port) × (send_and_wait h size v (at P (packet ++ rest) c p)
        ≡ stop modem_timeout (at P (packet ++ rest) c p'))
      × (L.incoming p' ≡ next)
      × (L.outgoing p' ≡ L.outgoing p ++ packet)
      × (L.later p' ≡ others)
unfolding send_and_wait serial_to_modem_error
send_late {P} {L = L} D c p v size packet rest next others e arrives pauses =
    let (p1, sent, in1, out1, quiet1) = snd_ok L packet (at P (packet ++ rest) c p) in
    let (p2, status, flushed, in2, out2, quiet2) = flush_ok L (at P (packet ++ rest) c p1) in
    let (p3, got, in3, out3, quiet3) =
      rcv_late D [] next others 1 60 (at P (packet ++ rest) c p2) (in2 ∙ in1 ∙ arrives)
        (quiet2 ∙ quiet1 ∙ pauses) (omega arith) in
    (
      p3,
      rw (load_ok {P = P} c p [] packet rest start_char size refl e, sent, flushed, got) refl,
      in3,
      out3 ∙ out2 ∙ out1,
      quiet3,
    )

module _ {P : Serprim} {h : Handle} {C : Type 0} (channel : OutputChannel C) (L : IsLine P h)
    (R : IsReader channel) (D : Pauses L) (z : Ending) (fuel : ℕ) where
  -- The loop, and the end of transmission behind it.
  abbrev pub packets_and_end : ℕ → TxVars → Session P C → Run (Session P C) ModemError
  packets_and_end k v s = and_then (packet_loop h channel k v s) (λ v'. eot_loop h fuel v'.rx_code)

  pub talks_lem :
      (k : ℕ) {f : XferMode} {n : ℕ} {now out : List ℕ} {later : List (List ℕ)} (c : C) (p : P.Port)
      (last code : ℕ) (body : List ℕ)
      → Talks P.int_bits z f n (drop last (R.file c)) now later out
      → length now < k
      → length now < fuel
      → R.Serves last c
      → size_of f + trailer_size f ≤ length body
      → L.incoming p ≡ now
      → L.later p ≡ later
      → Reaches L z
          (packets_and_end k
            (vars f last false code)
            (at P (start_of f ∷ n ∷ (255 - n) ∷ body) c p))
          p
          out
  unfolding packet_loop
  talks_lem zero c p last code body course few few' ahead room arrives pauses = absurd (omega arith)
  talks_lem (suc k) {f} {n} c p last code body
        (Talks.last_taken {now' = now'} {out' = out'} short course e e1) few few' ahead room arrives
        pauses =
      let rest = drop last (R.file c) in
      let g = settle f rest in
      let c' = (channel (size_of f) last c).chan in
      let (left, p1, stepped, len, in1, out1, quiet1) =
        round_lem {P = P} c p L R f last code n ack body now' ahead room (arrives ∙ e) in
      let body' = checked P.int_bits f rest ++ left in
      let n' : ℕ = (n + 1) % 2 ^ 8 in
      let (s', run, in2, quiet2, out2) =
        closes_lem L z D fuel ack (at P (start_of g ∷ n' ∷ (255 - n') ∷ body') c' p1) course
          (omega (arith, ap (length {0}) e)) in1 (quiet1 ∙ pauses) in
      (
        s',
        rw
            (
              stepped,
              interpret-ack {P = P} c' p1 g last (start_of g) n (255 - n)
                  (ltb (length rest) (size_of g)) body',
              lt→ltb (length rest) (size_of g) short,
            )
            run,
        in2,
        quiet2,
        out2
            ∙ ap (λ t. t ++ out') out1
            ∙ append_assoc (L.outgoing p) (framed P.int_bits f n rest) out'
            ∙ ap (λ t. L.outgoing p ++ t) (sym e1),
      )
  talks_lem (suc k) {f} {n} c p last code body
        (Talks.one_taken {now' = now'} {out' = out'} {later = later} full course e e1) few few'
        ahead room arrives pauses =
      let rest = drop last (R.file c) in
      let g = settle f rest in
      let size : ℕ = size_of g in
      let c' = (channel (size_of f) last c).chan in
      let (left, p1, stepped, len, in1, out1, quiet1) =
        round_lem {P = P} c p L R f last code n ack body now' ahead room (arrives ∙ e) in
      let body' = checked P.int_bits f rest ++ left in
      let moved = R.moves (size_of f) last c ahead in
      let (s', run, in2, quiet2, out2) =
        talks_lem k c' p1 size ack body'
          (subst (λ x. Talks P.int_bits z g ((n + 1) % 2 ^ 8) (drop size x) now' later out')
            (sym moved) course)
          (omega (arith, ap (length {0}) e)) (omega (arith, ap (length {0}) e))
          (R.stays (size_of f) last size c ahead full) (need-le f rest (length body') (omega arith))
          in1 (quiet1 ∙ pauses) in
      (
        s',
        rw
            (
              stepped,
              interpret-ack {P = P} c' p1 g last (start_of g) n (255 - n)
                  (ltb (length rest) (size_of g)) body',
              ltb_of_le (length rest) (size_of g) full,
            )
            run,
        in2,
        quiet2,
        out2
            ∙ ap (λ t. t ++ out') out1
            ∙ append_assoc (L.outgoing p) (framed P.int_bits f n rest) out'
            ∙ ap (λ t. L.outgoing p ++ t) (sym e1),
      )
  talks_lem (suc k) {f} {n} c p last code body
        (Talks.asked_again {now' = now'} {out' = out'} {later = later} course e e1) few few' ahead
        room arrives pauses =
      let rest = drop last (R.file c) in
      let g = settle f rest in
      let c' = (channel (size_of f) last c).chan in
      let (left, p1, stepped, len, in1, out1, quiet1) =
        round_lem {P = P} c p L R f last code n nak body now' ahead room (arrives ∙ e) in
      let body' = checked P.int_bits f rest ++ left in
      let moved = R.moves (size_of f) last c ahead in
      let (s', run, in2, quiet2, out2) =
        talks_lem k c' p1 0 nak body'
          (subst (λ x. Talks P.int_bits z g n x now' later out') (sym moved) course)
          (omega (arith, ap (length {0}) e)) (omega (arith, ap (length {0}) e))
          (R.stays (size_of f) last 0 c ahead (omega arith))
          (need-le f rest (length body') (omega arith)) in1 (quiet1 ∙ pauses) in
      (
        s',
        rw stepped run,
        in2,
        quiet2,
        out2
            ∙ ap (λ t. t ++ out') out1
            ∙ append_assoc (L.outgoing p) (framed P.int_bits f n rest) out'
            ∙ ap (λ t. L.outgoing p ++ t) (sym e1),
      )
  talks_lem (suc k) {f} {n} c p last code body (Talks.broken_off x (q, q') o e e' e1) few few' ahead
        room arrives pauses =
      let rest = drop last (R.file c) in
      let g = settle f rest in
      let c' = (channel (size_of f) last c).chan in
      let (left, p1, stepped, len, in1, out1, quiet1) =
        round_lem {P = P} c p L R f last code n x body z.unread ahead room (arrives ∙ e) in
      let s1 = at P (framed P.int_bits f n rest ++ left) c' p1 in
      (
        s1,
        rw (stepped, interpret-other (vars g last (ltb (length rest) (size_of g)) x) s1 q q', o)
            refl,
        in1,
        quiet1 ∙ pauses ∙ e',
        out1 ∙ ap (λ t. L.outgoing p ++ t) (sym e1),
      )
  talks_lem (suc k) {f} {n} c p last code body (Talks.unanswered o e e' e1) few few' ahead room
        arrives pauses =
      let rest = drop last (R.file c) in
      let g = settle f rest in
      let c' = (channel (size_of f) last c).chan in
      let packet = framed P.int_bits f n rest in
      let (left, sends, len, size) = round_sends {P = P} c p h R f last code n body ahead room in
      let (p1, sent, in1, out1, quiet1) =
        send_late D c' p (vars g last (ltb (length rest) (size_of g)) code)
          (data_start + size_of g + trailer_size g) packet left z.unread z.behind size (arrives ∙ e)
          (pauses ∙ e') in
      (
        at P (packet ++ left) c' p1,
        rw (sends, sent, o) refl,
        in1,
        quiet1,
        out1 ∙ ap (λ t. L.outgoing p ++ t) (sym e1),
      )
