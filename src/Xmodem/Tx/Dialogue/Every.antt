-- ===== src/Xmodem/Tx/Dialogue/Every.antt =====
-- `xmodem_tx` of src/xmodem.c on every line that pauses some time.
use libmodem.Modem.{
  eot, ack, nak, can, modem_no_errors, sent_can, modem_timeout, ModemError, OutputChannel, XferMode,
}
use libmodem.Prelude.{
  ℕ, ◌+◌, ◌%◌, ◌^◌, ◌≤◌, ◌<◌, ◌≡◌, refl, ap, List, [], ◌∷◌, ◌++◌, length, drop, arith,
}
use libmodem.Serial.Primitives.{Serprim, Handle}
use libmodem.Xmodem.Buffer.{at}
use libmodem.Xmodem.Frame.{size_of, trailer_size, settle, framed}
use libmodem.Xmodem.Line.{IsLine}
use libmodem.Xmodem.Pauses.{Ending, Pauses}
use libmodem.Xmodem.Session.{Session, ok}
use libmodem.Xmodem.Tx.{xmodem_tx}
use libmodem.Xmodem.Tx.Dialogue.{
  Closes, acknowledged, refused, ignored, misheard, Talks, last_taken, one_taken, asked_again,
  broken_off, unanswered, Dialogue, requested, not_meant, not_asked,
}
use libmodem.Xmodem.Tx.Dialogue.Transfer.{xmodem_tx-Dialogue}
use libmodem.Xmodem.Tx.Fill.{IsReader}
use libmodem.Xmodem.Tx.Phases.{request}
use native.Mathlib.Decide.{ℕ_discrete, dec_lt}

abbrev ends_with : ModemError → List ℕ → List (List ℕ) → Ending
ends_with o xs yss = record { outcome = o; unread = xs; behind = yss }

closing_of :
    (next : List ℕ) (others : List (List ℕ)) (now : List ℕ)
    → (z : Ending) × (out : List ℕ) × Closes z now (next ∷ others) out
closing_of next others [] =
    (ends_with modem_timeout next others, eot ∷ [], ignored refl refl refl refl)
closing_of next others (x ∷ now) = elim (ℕ_discrete x ack) [
  | yes e ↦ (
    ends_with modem_no_errors now (next ∷ others),
    eot ∷ [],
    acknowledged refl (ap (λ t. t ∷ now) e) refl refl,
  )
  | no q ↦ elim (ℕ_discrete x can) [
    | yes e ↦ (
      ends_with sent_can now (next ∷ others),
      eot ∷ [],
      refused refl (ap (λ t. t ∷ now) e) refl refl,
    )
    | no q' ↦
        let (z, out, course) = closing_of next others now in
        (z, eot ∷ out, misheard x (q, q') course refl refl)
  ]
]

packets_of :
    (w : ℕ) (f : XferMode) (n : ℕ) (file next : List ℕ) (others : List (List ℕ)) (now : List ℕ)
    → (z : Ending) × (out : List ℕ) × Talks w z f n file now (next ∷ others) out
packets_of w f n file next others [] =
    (ends_with modem_timeout next others, framed w f n file, unanswered refl refl refl refl)
packets_of w f n file next others (x ∷ now) = elim (ℕ_discrete x ack) [
  | yes e ↦ elim (dec_lt (length file) (size_of (settle f file))) [
    | yes short ↦
        let (z, out, course) = closing_of next others now in
        (z, framed w f n file ++ out, last_taken short course (ap (λ t. t ∷ now) e) refl)
    | no long ↦
        let (z, out, course) =
          packets_of w (settle f file) ((n + 1) % 2 ^ 8) (drop (size_of (settle f file)) file) next
            others now in
        (
          z,
          framed w f n file ++ out,
          one_taken (omega (arith, long)) course (ap (λ t. t ∷ now) e) refl,
        )
  ]
  | no q ↦ elim (ℕ_discrete x nak) [
    | yes e ↦
        let (z, out, course) = packets_of w (settle f file) n file next others now in
        (z, framed w f n file ++ out, asked_again course (ap (λ t. t ∷ now) e) refl)
    | no q' ↦ (
      ends_with sent_can now (next ∷ others),
      framed w f n file,
      broken_off x (q, q') refl refl refl refl,
    )
  ]
]

course_of :
    (w : ℕ) (f : XferMode) (file next : List ℕ) (others : List (List ℕ)) (now : List ℕ)
    → (z : Ending) × (out : List ℕ) × Dialogue w z f file now (next ∷ others) out
course_of w f file next others [] =
    (ends_with modem_timeout next others, [], not_asked refl refl refl refl)
course_of w f file next others (x ∷ now) = elim (ℕ_discrete x (request f)) [
  | yes e ↦
      let (z, out, course) = packets_of w f 1 file next others now in
      (z, out, requested course (ap (λ t. t ∷ now) e))
  | no q ↦
      let (z, out, course) = course_of w f file next others now in
      (z, out, not_meant x q course refl)
]

-- On every line that pauses, whatever comes before and behind the pause, with reads that time out
-- there, a channel that hands out a file and may be asked for it, a buffer as large as the mode's
-- packet and fuel for every character before the pause: what comes is that of a dialogue of the
-- protocol for the file, and `xmodem_tx` returns its code, has sent its bytes, and has read nothing
-- further.
pub xmodem_tx-always :
    {P : Serprim} {h : Handle} {C : Type 0} {channel : OutputChannel C} (L : IsLine P h)
    (D : Pauses L) (R : IsReader channel) (f : XferMode) (fuel : ℕ) (next buffer : List ℕ)
    (others : List (List ℕ)) (c : C) (p : P.Port)
    → R.Serves 0 c
    → L.later p ≡ next ∷ others
    → 3 + size_of f + trailer_size f ≤ length buffer
    → length (L.incoming p) < fuel
    → (z : Ending) × (out : List ℕ) × (s' : Session P C) × Dialogue P.int_bits z f
        (R.file c)
        (L.incoming p)
        (next ∷ others)
        out
      × (xmodem_tx h channel f fuel (at P buffer c p) ≡ ok z.outcome s')
      × (L.incoming s'.port ≡ z.unread)
      × (L.later s'.port ≡ z.behind)
      × (L.outgoing s'.port ≡ L.outgoing p ++ out)
xmodem_tx-always {P} L D R f fuel next buffer others c p ready pauses room enough =
    let (z, out, course) = course_of P.int_bits f (R.file c) next others (L.incoming p) in
    let (s', run, in1, quiet1, out1) =
      xmodem_tx-Dialogue L D R f fuel z (L.incoming p) out buffer (next ∷ others) c p ready course
        refl pauses room enough in
    (z, out, s', course, run, in1, quiet1, out1)
