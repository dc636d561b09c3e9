-- ===== src/Xmodem/Rx/Reception.antt =====
-- The loop of `xmodem_rx` on a line that works, for every course of noise and packets.
use libmodem.Modem.{nul, eot, ack, nak, InputChannel, XferMode}
use libmodem.Prelude.{
  ℕ, zero, suc, ◌+◌, ◌-◌, ◌%◌, ◌^◌, ◌≤◌, ◌<◌, ◌≡◌, refl, sym, ap, ◌∙◌, Bool, true, false, List, [],
  ◌∷◌, ◌++◌, length, arith, append_assoc, append-nil, length-append,
}
use libmodem.Serial.Primitives.{Serprim, Handle}
use libmodem.Xmodem.Buffer.{at}
use libmodem.Xmodem.Frame.{size_of, trailer_size, trailer}
use libmodem.Xmodem.Line.{IsLine}
use libmodem.Xmodem.Rx.{RxVars, wait_rounds, first_char_loop}
use libmodem.Xmodem.Rx.Counter.{patience-le, few_tries, counts_on, wraps}
use libmodem.Xmodem.Rx.Course.{packet_mode, packet, Receives}
use libmodem.Xmodem.Rx.First.{sign-eot, sign-noise, vars, first_step}
use libmodem.Xmodem.Rx.Packet.{IsWriter}
use libmodem.Xmodem.Rx.Rounds.{resume, round_taken, round_refused}
use libmodem.Xmodem.Session.{Session, Run, ok, and_then}

pub chain :
    (a xs ys : List ℕ) {b d zs : List ℕ} → d ≡ b ++ ys → b ≡ a ++ xs → zs ≡ xs ++ ys → d ≡ a ++ zs
chain a xs ys e e' e'' =
    e ∙ ap (λ t. t ++ ys) e' ∙ append_assoc a xs ys ∙ ap (λ t. a ++ t) (sym e'')

module _ {P : Serprim} {h : Handle} {C : Type 0} {channel : InputChannel C} (L : IsLine P h)
    (W : IsWriter channel) (wide : 16 ≤ P.int_bits) (wide' : 1024 < 2 ^ P.size_bits) where
  -- A run that ends well, and what it has taken, sent and stored.
  abbrev pub Ends : Run (Session P C) RxVars → C → P.Port → List ℕ → List ℕ → List ℕ → Type 0
  Ends run c p more answers held =
      (v' : RxVars) × (s' : Session P C) × (run ≡ ok v' s')
      × (L.incoming s'.port ≡ more)
      × (L.outgoing s'.port ≡ L.outgoing p ++ answers)
      × (W.stored s'.chan ≡ W.stored c ++ held)

  pub receives_lem :
      (fuel k : ℕ) {f : XferMode} {n tries : ℕ} {inc answers held : List ℕ} (small : Bool)
      (tx err b : ℕ) (rest more : List ℕ) (c : C) (p : P.Port)
      → Receives P.int_bits f n tries inc answers held
      → (err + 1) % 2 ^ P.int_bits ≡ tries
      → 12 ≤ k + tries
      → length answers ≤ fuel
      → 2 + size_of f + trailer_size f ≤ length rest
      → L.incoming p ≡ inc ++ more
      → W.HasRoom (length held) c
      → Ends
          (and_then
            (first_char_loop h k (vars f small n tx err false) (at P (b ∷ rest) c p))
            (resume h channel fuel))
          c
          p
          more
          answers
          held
  receives_lem fuel zero {f} small tx err b rest more c p course counted left enough room arrives
        roomy =
      absurd (omega (arith, few_tries course, patience-le f))
  receives_lem fuel (suc k) {f} {n} {tries} small tx err b rest more c p
        (Receives.ended few e e1 e2) counted left enough room arrives roomy =
      let (p1, first, in1, out1, quiet1) =
        first_step L k f small n tx err tries eot b rest more c p counted few
          (arrives ∙ ap (λ t. t ++ more) e) in
      (
        vars f small n tx tries true,
        at P (eot ∷ rest) c p1,
        rw (first, sign-eot f) refl,
        in1,
        out1 ∙ sym (append-nil _) ∙ ap (λ t. L.outgoing p ++ t) (sym e1),
        sym (append-nil _) ∙ ap (λ t. W.stored c ++ t) (sym e2),
      )
  receives_lem fuel (suc k) {f} {n} {tries} {inc} {answers} small tx err b rest more c p
        (Receives.noise {inc' = inc'} x few idle course e) counted left enough room arrives roomy =
      let (p1, first, in1, out1, quiet1) =
        first_step L k f small n tx err tries x b rest (inc' ++ more) c p counted few
          (arrives ∙ ap (λ t. t ++ more) e) in
      let (v', s', run, in2, out2, kept) =
        receives_lem fuel k small tx tries x rest more c p1 course
          (counts_on P.int_bits tries wide (omega (arith, patience-le f))) (omega arith) enough room
          in1 roomy in
      (v', s', rw (first, sign-noise f x idle) run, in2, out2 ∙ ap (λ t. t ++ answers) out1, kept)
  receives_lem zero (suc k) small tx err b rest more c p
        (Receives.accepted small' number comp block few size step course e e1 e2) counted left
        enough room arrives roomy =
      absurd (omega (arith, ap (length {0}) e1))
  receives_lem zero (suc k) small tx err b rest more c p
        (Receives.rejected small' number comp block tag few size size' bytes bad step course e e1)
        counted left enough room arrives roomy =
      absurd (omega (arith, ap (length {0}) e1))
  receives_lem (suc fuel) (suc k) {f} {n} {tries} {held = held} small tx err b rest more c p
        (Receives.accepted {inc' = inc'} {answers' = answers'} {stored' = stored'} small' number
          comp block few size step course e e1 e2)
        counted left enough room arrives roomy =
      let g = packet_mode f small' in
      let total : length held ≡ length block + length stored' =
        omega (arith, ap (length {0}) e2, length-append {0} block stored') in
      let (rest', c', p1, turns, long, roomy', kept, in1, out1, quiet1) =
        round_taken channel L wide W fuel k f small small' n tx err tries b number comp
          (length held) block rest (inc' ++ more) c p wide' counted few size step room
          (omega (arith, total)) roomy
          (arrives
            ∙ ap (λ t. t ++ more) e
            ∙ append_assoc (packet g number comp block (trailer P.int_bits g block)) inc' more) in
      let (v', s', run, in2, out2, kept') =
        receives_lem fuel wait_rounds small' nak (2 ^ P.int_bits - 1) nul rest' more c' p1 course
          (wraps P.int_bits wide) (omega arith) (omega (arith, ap (length {0}) e1))
          (omega (arith, long)) in1 (W.fewer _ _ c' (omega (arith, total)) roomy') in
      (
        v',
        s',
        rw turns run,
        in2,
        chain (L.outgoing p) (ack ∷ []) answers' {d = L.outgoing s'.port} out2 out1 e1,
        chain (W.stored c) block stored' {d = W.stored s'.chan} kept' kept e2,
      )
  receives_lem (suc fuel) (suc k) {f} {n} {tries} small tx err b rest more c p
        (Receives.rejected {inc' = inc'} {answers' = answers'} small' number comp block tag few size
          tagged bytes bad step course e e1)
        counted left enough room arrives roomy =
      let g = packet_mode f small' in
      let (rest', p1, turns, long, in1, out1, quiet1) =
        round_refused channel L wide fuel k f small small' n tx err tries b number comp block tag
          rest (inc' ++ more) c p counted few size tagged bytes bad step room
          (arrives
            ∙ ap (λ t. t ++ more) e
            ∙ append_assoc (packet g number comp block tag) inc' more) in
      let (v', s', run, in2, out2, kept) =
        receives_lem fuel wait_rounds small' nak tries nul rest' more c p1 course
          (counts_on P.int_bits tries wide (omega (arith, patience-le f))) (omega arith)
          (omega (arith, ap (length {0}) e1)) (omega (arith, long)) in1 roomy in
      (
        v',
        s',
        rw turns run,
        in2,
        chain (L.outgoing p) (nak ∷ []) answers' {d = L.outgoing s'.port} out2 out1 e1,
        kept,
      )
