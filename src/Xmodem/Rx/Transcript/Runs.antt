-- ===== src/Xmodem/Rx/Transcript/Runs.antt =====
-- The loop of `xmodem_rx` on a line that pauses, for every transcript.
use libmodem.Modem.{nul, ack, nak, InputChannel, XferMode}
use libmodem.Prelude.{
  ℕ, zero, suc, ◌+◌, ◌-◌, ◌%◌, ◌^◌, ◌≤◌, ◌<◌, ◌≡◌, refl, sym, ap, ◌∙◌, Bool, false, List, [], ◌∷◌,
  length, arith, subst, append-nil, length-append,
}
use libmodem.Serial.Primitives.{Serprim, Handle}
use libmodem.Xmodem.Buffer.{at}
use libmodem.Xmodem.Frame.{size_of, trailer_size}
use libmodem.Xmodem.Line.{IsLine}
use libmodem.Xmodem.Rx.{wait_rounds, first_char_loop}
use libmodem.Xmodem.Rx.Counter.{patience-le, counts_on, wraps}
use libmodem.Xmodem.Rx.Course.{IsIdle}
use libmodem.Xmodem.Rx.First.{sign-noise, vars, first_step}
use libmodem.Xmodem.Rx.Packet.{IsWriter}
use libmodem.Xmodem.Rx.Rounds.{resume, round_taken, round_refused}
use libmodem.Xmodem.Rx.Transcript.{Transcript}
use libmodem.Xmodem.Rx.Transcript.Outcome.{nul-IsIdle, few_tries}
use libmodem.Xmodem.Rx.Transcript.Packets.{round_cut}
use libmodem.Xmodem.Rx.Transcript.Rounds.{
  Follows, goes_on, goes_on_unchanged, eot_run, last_wait_run, astray_run,
}
use libmodem.Xmodem.Pauses.{Ending, Pauses}
use libmodem.Xmodem.Rx.Transcript.Waits.{wait_late, wait_downgraded}
use libmodem.Xmodem.Session.{and_then}

module _ {P : Serprim} {h : Handle} {C : Type 0} {channel : InputChannel C} (L : IsLine P h)
    (D : Pauses L) (W : IsWriter channel) (wide : 16 ≤ P.int_bits) (wide' : 1024 < 2 ^ P.size_bits)
    (most : ℕ) (z : Ending) where
  pub follows_lem :
      (fuel k : ℕ) {f : XferMode} {n tries tx : ℕ} {now answers held : List ℕ}
      {later : List (List ℕ)} (small : Bool) (err b : ℕ) (rest : List ℕ) (c : C) (p : P.Port)
      → Transcript P.int_bits most z f n tries tx now later answers held
      → (err + 1) % 2 ^ P.int_bits ≡ tries
      → 13 ≤ k + tries
      → length answers + most ≤ fuel
      → 2 + size_of f + trailer_size f ≤ length rest
      → IsIdle f b
      → L.incoming p ≡ now
      → L.later p ≡ later
      → W.HasRoom (length held) c
      → Follows L D W z
          (and_then
            (first_char_loop h k (vars f small n tx err false) (at P (b ∷ rest) c p))
            (resume h channel fuel))
          c
          p
          answers
          held
  follows_lem fuel zero small err b rest c p course counted left enough room quiet arrives pauses
        roomy =
      absurd (omega (arith, few_tries course))
  follows_lem fuel (suc k) {f} {n} {tx = tx} small err b rest c p
        (Transcript.finished few o e e' e1 e2) counted left enough room quiet arrives pauses roomy =
      eot_run L D W z fuel k f n tx small err b rest c p counted few o (arrives ∙ e) (pauses ∙ e')
        e1 e2
  follows_lem fuel (suc k) {f} {n} {tx = tx} small err b rest c p
        (Transcript.gave_up many o e e' e1 e2) counted left enough room quiet arrives pauses roomy =
      last_wait_run L D W z fuel k f n tx small err b rest c p counted many o (arrives ∙ e)
        (pauses ∙ e') e1 e2
  follows_lem fuel (suc k) {f} {n} {tx = tx} small err b rest c p
        (Transcript.out_of_step small' number comp body few size wrong wrong' o e e' e1 e2) counted
        left enough room quiet arrives pauses roomy =
      astray_run L D W z fuel k f n tx small' number comp body small err b rest c p counted few size
        wrong wrong' room o (arrives ∙ e) (pauses ∙ e') e1 e2
  follows_lem fuel (suc k) {f} {n} {tries} {tx} {answers} {held} small err b rest c p
        (Transcript.downgrade e many few course) counted left enough room quiet arrives pauses
        roomy =
      goes_on_unchanged L D W z c p [] answers held
        (ap (λ t. and_then t (resume h channel fuel))
          (ap (λ t. first_char_loop h (suc k) (vars t small n tx err false) (at P (b ∷ rest) c p)) e
            ∙ wait_downgraded D k small n tx err tries b rest c p counted many few))
        (sym (append-nil _)) refl
        (follows_lem fuel (suc k) small err b rest c p course counted left enough
          (omega (arith, subst (λ t. 2 + size_of t + trailer_size t ≤ length rest) e room))
          (subst (λ t. IsIdle t b) e quiet) arrives pauses roomy)
  follows_lem fuel (suc k) {f} {n} {tries} {tx} {answers = answers} {held = held} small err b rest c
        p
        (Transcript.paused {next = next} {answers' = answers'} {later' = others} few course e e' e1)
        counted left enough room quiet arrives pauses roomy =
      let (p1, first, in1, out1, quiet1) =
        wait_late D k f small n tx err tries b rest next others c p counted few quiet (arrives ∙ e)
          (pauses ∙ e') in
      goes_on_unchanged L D W z c p (tx ∷ []) answers' held (rw first refl) out1 e1 (
        follows_lem fuel k small tries b rest c p1 course
          (counts_on P.int_bits tries wide (omega (arith, patience-le f))) (omega arith)
          (omega (arith, ap (length {0}) e1)) room quiet in1 quiet1 roomy)
  follows_lem fuel (suc k) {f} {n} {tries} {tx} {answers = answers} {held = held} small err b rest c
        p (Transcript.stray {now' = now'} x few quiet' course e) counted left enough room quiet
        arrives pauses roomy =
      let (p1, first, in1, out1, quiet1) =
        first_step L k f small n tx err tries x b rest now' c p counted few (arrives ∙ e) in
      goes_on_unchanged L D W z c p [] answers held (rw (first, sign-noise f x quiet') refl)
        (out1 ∙ sym (append-nil _)) refl
        (follows_lem fuel k small tries x rest c p1 course
          (counts_on P.int_bits tries wide (omega (arith, patience-le f))) (omega arith) enough room
          quiet' in1 (quiet1 ∙ pauses) roomy)
  follows_lem zero (suc k) small err b rest c p
        (Transcript.cut_short small' part junk few short short' course e e' e1) counted left enough
        room quiet arrives pauses roomy =
      absurd (omega (arith, ap (length {0}) e1))
  follows_lem zero (suc k) small err b rest c p
        (Transcript.taken small' number comp block few size step course e e1 e2) counted left enough
        room quiet arrives pauses roomy =
      absurd (omega (arith, ap (length {0}) e1))
  follows_lem zero (suc k) small err b rest c p
        (Transcript.refused small' number comp block tag few size tagged bytes bad step course e e1)
        counted left enough room quiet arrives pauses roomy =
      absurd (omega (arith, ap (length {0}) e1))
  follows_lem (suc fuel) (suc k) {f} {n} {tries} {tx} {held = held} small err b rest c p
        (Transcript.cut_short {next = next} {answers' = answers'} {later' = others} small' part junk
          few short short' course e e' e1)
        counted left enough room quiet arrives pauses roomy =
      let (rest', p1, turns, long, in1, out1, quiet1) =
        round_cut channel L D fuel k f small small' n tx err tries b part junk next rest others c p
          counted few short (omega (arith, ap (length {0}) e1)) room (arrives ∙ e) (pauses ∙ e') in
      goes_on_unchanged L D W z c p (nak ∷ []) answers' held (turns) out1 e1 (
        follows_lem fuel wait_rounds small' tries nul rest' c p1 course
          (counts_on P.int_bits tries wide (omega (arith, patience-le f))) (omega arith)
          (omega (arith, ap (length {0}) e1)) (omega (arith, long)) (nul-IsIdle f) in1 quiet1 roomy)
  follows_lem (suc fuel) (suc k) {f} {n} {tries} {tx} {held = held} small err b rest c p
        (Transcript.taken {now' = now'} {answers' = answers'} {stored' = stored'} small' number comp
          block few size step course e e1 e2)
        counted left enough room quiet arrives pauses roomy =
      let total : length held ≡ length block + length stored' =
        omega (arith, ap (length {0}) e2, length-append {0} block stored') in
      let (rest', c', p1, turns, long, roomy', kept, in1, out1, quiet1) =
        round_taken channel L wide W fuel k f small small' n tx err tries b number comp
          (length held) block rest now' c p wide' counted few size step room (omega (arith, total))
          roomy (arrives ∙ e) in
      goes_on L D W z c p (ack ∷ []) block answers' stored' turns out1 e1 kept e2 (
        follows_lem fuel wait_rounds small' (2 ^ P.int_bits - 1) nul rest' c' p1 course
          (wraps P.int_bits wide) (omega arith) (omega (arith, ap (length {0}) e1))
          (omega (arith, long)) (nul-IsIdle f) in1 (quiet1 ∙ pauses)
          (W.fewer _ _ c' (omega (arith, total)) roomy'))
  follows_lem (suc fuel) (suc k) {f} {n} {tries} {tx} {held = held} small err b rest c p
        (Transcript.refused {now' = now'} {answers' = answers'} small' number comp block tag few
          size tagged bytes bad step course e e1)
        counted left enough room quiet arrives pauses roomy =
      let (rest', p1, turns, long, in1, out1, quiet1) =
        round_refused channel L wide fuel k f small small' n tx err tries b number comp block tag
          rest now' c p counted few size tagged bytes bad step room (arrives ∙ e) in
      goes_on_unchanged L D W z c p (nak ∷ []) answers' held (turns) out1 e1 (
        follows_lem fuel wait_rounds small' tries nul rest' c p1 course
          (counts_on P.int_bits tries wide (omega (arith, patience-le f))) (omega arith)
          (omega (arith, ap (length {0}) e1)) (omega (arith, long)) (nul-IsIdle f) in1
          (quiet1 ∙ pauses) roomy)
