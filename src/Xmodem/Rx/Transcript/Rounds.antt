-- ===== src/Xmodem/Rx/Transcript/Rounds.antt =====
-- The last round of the loop of `xmodem_rx` on a line that pauses, for each way in which a
-- transcript ends, and how a round goes in front of a run.
use libmodem.Modem.{
  eot, can, InputChannel, XferMode, modem_no_errors, packet_mismatch, modem_timeout,
}
use libmodem.Prelude.{
  ℕ, suc, ◌+◌, ◌-◌, ◌%◌, ◌^◌, ◌≤◌, ◌≡◌, ◌≢◌, refl, sym, ap, ◌∙◌, Bool, true, false, List, [], ◌∷◌,
  ◌++◌, length, append-nil,
}
use libmodem.Serial.Primitives.{Serprim, Handle}
use libmodem.Xmodem.Buffer.{at}
use libmodem.Xmodem.Frame.{start_of, size_of, trailer_size}
use libmodem.Xmodem.Line.{IsLine}
use libmodem.Xmodem.Rx.{RxVars, first_char_loop}
use libmodem.Xmodem.Rx.Counter.{room_for}
use libmodem.Xmodem.Rx.Course.{packet_mode, patience}
use libmodem.Xmodem.Rx.First.{sign-eot, sign-start_of, vars, first_step}
use libmodem.Xmodem.Rx.Packet.{IsWriter}
use libmodem.Xmodem.Rx.Reception.{chain}
use libmodem.Xmodem.Rx.Rounds.{resume}
use libmodem.Xmodem.Rx.Transcript.Outcome.{ended_by}
use libmodem.Xmodem.Rx.Transcript.Packets.{packet_astray}
use libmodem.Xmodem.Pauses.{Ending, Pauses}
use libmodem.Xmodem.Rx.Transcript.Waits.{wait_over}
use libmodem.Xmodem.Session.{Session, Run, and_then}

module _ {P : Serprim} {h : Handle} {C : Type 0} {channel : InputChannel C} (L : IsLine P h)
    (D : Pauses L) (W : IsWriter channel) (z : Ending) where
  -- A run that ends as the transcript says.
  abbrev pub Follows : Run (Session P C) RxVars → C → P.Port → List ℕ → List ℕ → Type 0
  Follows run c p answers held =
      (v' : RxVars) × (s' : Session P C) × (run ≡ ended_by z.outcome v' s')
      × (L.incoming s'.port ≡ z.unread)
      × (L.later s'.port ≡ z.behind)
      × (L.outgoing s'.port ≡ L.outgoing p ++ answers)
      × (W.stored s'.chan ≡ W.stored c ++ held)

  -- A run that ends as the rest of the transcript says, behind a round that has sent `sent` and
  -- stored `block`.
  pub goes_on :
      (c : C) (p : P.Port) (sent block answers' stored' : List ℕ)
      {run run' : Run (Session P C) RxVars} {c1 : C} {p1 : P.Port} {answers held : List ℕ}
      → run ≡ run'
      → L.outgoing p1 ≡ L.outgoing p ++ sent
      → answers ≡ sent ++ answers'
      → W.stored c1 ≡ W.stored c ++ block
      → held ≡ block ++ stored'
      → Follows run' c1 p1 answers' stored'
      → Follows run c p answers held
  goes_on c p sent block answers' stored' turns out1 e1 kept1 e2
        (v', s', run, in2, quiet2, out2, kept2) =
      (
        v',
        s',
        turns ∙ run,
        in2,
        quiet2,
        chain (L.outgoing p) sent answers' {d = L.outgoing s'.port} out2 out1 e1,
        chain (W.stored c) block stored' {d = W.stored s'.chan} kept2 kept1 e2,
      )

  -- A round that stores nothing.
  pub goes_on_unchanged :
      (c : C) (p : P.Port) (sent answers' held : List ℕ) {run run' : Run (Session P C) RxVars}
      {p1 : P.Port} {answers : List ℕ}
      → run ≡ run'
      → L.outgoing p1 ≡ L.outgoing p ++ sent
      → answers ≡ sent ++ answers'
      → Follows run' c p1 answers' held
      → Follows run c p answers held
  goes_on_unchanged c p sent answers' held turns out1 e1 =
      goes_on c p sent [] answers' held turns out1 e1 (sym (append-nil (W.stored c))) refl

  -- An EOT.
  pub eot_run :
      (fuel k : ℕ) (f : XferMode) (n tx : ℕ) {tries : ℕ} {answers held : List ℕ} (small : Bool)
      (err b : ℕ) (rest : List ℕ) (c : C) (p : P.Port)
      → (err + 1) % 2 ^ P.int_bits ≡ tries
      → tries ≤ patience f
      → z.outcome ≡ modem_no_errors
      → L.incoming p ≡ eot ∷ z.unread
      → L.later p ≡ z.behind
      → answers ≡ []
      → held ≡ []
      → Follows
          (and_then
            (first_char_loop h (suc k) (vars f small n tx err false) (at P (b ∷ rest) c p))
            (resume h channel fuel))
          c
          p
          answers
          held
  eot_run fuel k f n tx {tries} small err b rest c p counted few o arrives pauses e1 e2 =
      let (p1, first, in1, out1, quiet1) =
        first_step L k f small n tx err tries eot b rest z.unread c p counted few arrives in
      (
        vars f small n tx tries true,
        at P (eot ∷ rest) c p1,
        rw (first, sign-eot f, o) refl,
        in1,
        quiet1 ∙ pauses,
        out1 ∙ sym (append-nil _) ∙ ap (λ t. L.outgoing p ++ t) (sym e1),
        sym (append-nil _) ∙ ap (λ t. W.stored c ++ t) (sym e2),
      )

  -- The last wait, in vain.
  pub last_wait_run :
      (fuel k : ℕ) (f : XferMode) (n tx : ℕ) {tries : ℕ} {answers held : List ℕ} (small : Bool)
      (err b : ℕ) (rest : List ℕ) (c : C) (p : P.Port)
      → (err + 1) % 2 ^ P.int_bits ≡ tries
      → tries ≡ 12
      → z.outcome ≡ modem_timeout
      → L.incoming p ≡ z.unread
      → L.later p ≡ z.behind
      → answers ≡ can ∷ []
      → held ≡ []
      → Follows
          (and_then
            (first_char_loop h (suc k) (vars f small n tx err false) (at P (b ∷ rest) c p))
            (resume h channel fuel))
          c
          p
          answers
          held
  last_wait_run fuel k f n tx {tries} small err b rest c p counted many o arrives pauses e1 e2 =
      let (p1, first, in1, out1, quiet1) =
        wait_over D k f small n tx err b rest c p (counted ∙ many) in
      (
        vars f small n tx tries false,
        at P (b ∷ rest) c p1,
        rw (first, o) refl,
        in1 ∙ arrives,
        quiet1 ∙ pauses,
        out1 ∙ ap (λ t. L.outgoing p ++ t) (sym e1),
        sym (append-nil _) ∙ ap (λ t. W.stored c ++ t) (sym e2),
      )

  -- A packet with neither number right.
  pub astray_run :
      (fuel k : ℕ) (f : XferMode) (n tx : ℕ) {tries : ℕ} {answers held : List ℕ} (small' : Bool)
      (number comp : ℕ) (body : List ℕ) (small : Bool) (err b : ℕ) (rest : List ℕ) (c : C)
      (p : P.Port)
      → (err + 1) % 2 ^ P.int_bits ≡ tries
      → tries ≤ patience f
      → length body ≡ size_of (packet_mode f small') + trailer_size (packet_mode f small')
      → number ≢ n
      → comp ≢ 255 - n
      → 2 + size_of f + trailer_size f ≤ length rest
      → z.outcome ≡ packet_mismatch
      → L.incoming p ≡ start_of (packet_mode f small') ∷ number ∷ comp ∷ (body ++ z.unread)
      → L.later p ≡ z.behind
      → answers ≡ can ∷ []
      → held ≡ []
      → Follows
          (and_then
            (first_char_loop h (suc k) (vars f small n tx err false) (at P (b ∷ rest) c p))
            (resume h channel fuel))
          c
          p
          answers
          held
  astray_run fuel k f n tx {tries} small' number comp body small err b rest c p counted few size
        wrong wrong' room o arrives pauses e1 e2 =
      let g = packet_mode f small' in
      let (p1, first, in1, out1, quiet1) =
        first_step L k f small n tx err tries (start_of g) b rest
          ((number ∷ comp ∷ body) ++ z.unread) c p counted few arrives in
      let (back, p2, tested, in2, out2, quiet2) =
        packet_astray channel L fuel f small small' n tx tries number comp body rest z.unread c p1
          size wrong wrong' (room_for f small' (length rest) room) in1 in
      (
        vars f small n tx tries false,
        at P (start_of g ∷ number ∷ comp ∷ (body ++ back)) c p2,
        rw (first, sign-start_of f small', tested, o) refl,
        in2,
        quiet2 ∙ quiet1 ∙ pauses,
        out2 ∙ ap (λ t. t ++ can ∷ []) out1 ∙ ap (λ t. L.outgoing p ++ t) (sym e1),
        sym (append-nil _) ∙ ap (λ t. W.stored c ++ t) (sym e2),
      )
