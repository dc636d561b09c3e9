-- ===== src/Xmodem/Rx/Rounds.antt =====
-- A round of the loop of `xmodem_rx` on a line that works, from the wait for a first character to
-- the next wait.
use libmodem.Modem.{data_start, nul, ack, nak, InputChannel, XferMode}
use libmodem.Prelude.{
  ℕ, suc, ◌+◌, ◌-◌, ◌%◌, ◌^◌, ◌≤◌, ◌<◌, ◌≡◌, ◌≢◌, ◌⊎◌, refl, ap, ◌∙◌, Bool, false, List, [], ◌∷◌,
  ◌++◌, All, length, arith, subst, length-append, if◌then◌else◌,
}
use libmodem.Serial.Primitives.{Serprim, Handle}
use libmodem.Xmodem.Buffer.{at, store_ok}
use libmodem.Xmodem.Frame.{start_of, size_of, trailer_size, trailer, length-trailer}
use libmodem.Xmodem.Line.{IsLine}
use libmodem.Xmodem.Rx.{RxVars, wait_rounds, first_char_loop, rx_packet, rx_loop}
use libmodem.Xmodem.Rx.Counter.{room_for}
use libmodem.Xmodem.Rx.Course.{packet_mode, packet, patience}
use libmodem.Xmodem.Rx.First.{sign-start_of, vars, first_step}
use libmodem.Xmodem.Rx.Packet.{IsWriter, rx_packet_lem, accept_lem, reject_lem}
use libmodem.Xmodem.Rx.Verdict.{verdict-trailer, verdict-other}
use libmodem.Xmodem.Session.{Session, Run, and_then, ◌>>=◌, pure}

module _ {P : Serprim} (h : Handle) {C : Type 0} (channel : InputChannel C) where
  -- What follows the wait for the first character.
  abbrev pub resume : ℕ → RxVars → Session P C → Run (Session P C) RxVars
  resume fuel v =
      if v.eot_detected then pure v else (rx_packet h channel fuel v >>= rx_loop h channel fuel)

  -- The wait and what follows it.
  abbrev pub waiting : ℕ → ℕ → RxVars → Session P C → Run (Session P C) RxVars
  waiting fuel k v s = and_then (first_char_loop h k v s) (resume fuel)

  pub rx_loop-resume :
      (fuel : ℕ) (v : RxVars) (b : ℕ) (rest : List ℕ) (c : C) (p : P.Port)
      → rx_loop h channel (suc fuel) v (at P (b ∷ rest) c p)
        ≡ waiting fuel wait_rounds v (at P (nul ∷ rest) c p)
  unfolding rx_loop
  rx_loop-resume fuel v b rest c p =
      rw (store_ok {P = P} c p [] (b ∷ []) rest 0 (nul ∷ []) refl refl) refl

module _ {P : Serprim} {h : Handle} {C : Type 0} (channel : InputChannel C) (L : IsLine P h)
    (wide : 16 ≤ P.int_bits) where
  -- A good packet is stored and acknowledged.
  pub round_taken :
      (W : IsWriter channel) (fuel k : ℕ) (f : XferMode) (small small' : Bool)
      (n tx err tries b number comp held : ℕ) (block rest inc : List ℕ) (c : C) (p : P.Port)
      → let g = packet_mode f small' in
        1024 < 2 ^ P.size_bits
        → (err + 1) % 2 ^ P.int_bits ≡ tries
        → tries ≤ patience f
        → length block ≡ size_of g
        → (number ≡ n) ⊎ (comp ≡ 255 - n)
        → 2 + size_of f + trailer_size f ≤ length rest
        → length block ≤ held
        → W.HasRoom held c
        → L.incoming p ≡ packet g number comp block (trailer P.int_bits g block) ++ inc
        → (rest' : List ℕ) × (c' : C) × (p' : P.Port) × (waiting h channel
              (suc fuel)
              (suc k)
              (vars f small n tx err false)
              (at P (b ∷ rest) c p)
            ≡ waiting h channel fuel wait_rounds
                (vars f small' ((n + 1) % 2 ^ 8) nak (2 ^ P.int_bits - 1) false)
                (at P (nul ∷ rest') c' p'))
          × (length rest' ≡ length rest)
          × W.HasRoom (held - length block) c'
          × (W.stored c' ≡ W.stored c ++ block)
          × (L.incoming p' ≡ inc)
          × (L.outgoing p' ≡ L.outgoing p ++ ack ∷ [])
          × (L.later p' ≡ L.later p)
  round_taken W fuel k f small small' n tx err tries b number comp held block rest inc c p wide'
        counted few size step room enough roomy arrives =
      let g = packet_mode f small' in
      let tag = trailer P.int_bits g block in
      let tagged : length tag ≡ trailer_size g = length-trailer P.int_bits g block in
      let body = number ∷ comp ∷ (block ++ tag) in
      let taken : ℕ = data_start + size_of g - data_start in
      let c' = (channel block taken false c).1 in
      let rest_of : held - taken ≡ held - length block = omega (arith, size) in
      let (p1, first, in1, out1, quiet1) =
        first_step L k f small n tx err tries (start_of g) b rest (body ++ inc) c p counted few
          arrives in
      let (back, p2, tested, long, in2, out2, quiet2) =
        rx_packet_lem channel L (suc fuel) f small small' n tx tries number comp block tag rest inc
          c p1 size tagged step (room_for f small' (length rest) room) in1 in
      let (p3, answer, kept, in3, out3, quiet3) =
        accept_lem channel L W f small' n tx tries (start_of g) number comp block tag back c p2 size
          wide' held enough roomy in
      let rest' = number ∷ comp ∷ ((block ++ tag) ++ back) in
      (
        rest',
        c',
        p3,
        rw (first, sign-start_of f small', tested, verdict-trailer P.int_bits g block wide, answer)
            (rx_loop-resume {P = P} h channel fuel
              (vars f small' ((n + 1) % 2 ^ 8) nak (2 ^ P.int_bits - 1) false) (start_of g) rest' c'
              p3),
        omega (arith, length-append {0} (block ++ tag) back, length-append {0} block tag),
        subst (λ j. W.HasRoom j c') rest_of
            (W.stays block taken held c (omega (arith, size)) (omega (arith, size)) roomy),
        kept,
        in3 ∙ in2,
        out3 ∙ ap (λ t. t ++ ack ∷ []) (out2 ∙ out1),
        quiet3 ∙ quiet2 ∙ quiet1,
      )

  -- A corrupted packet is asked for again.
  pub round_refused :
      (fuel k : ℕ) (f : XferMode) (small small' : Bool) (n tx err tries b number comp : ℕ)
      (block tag rest inc : List ℕ) (c : C) (p : P.Port)
      → let g = packet_mode f small' in
        (err + 1) % 2 ^ P.int_bits ≡ tries
        → tries ≤ patience f
        → length block ≡ size_of g
        → length tag ≡ trailer_size g
        → All (λ x. x < 256) tag
        → tag ≢ trailer P.int_bits g block
        → (number ≡ n) ⊎ (comp ≡ 255 - n)
        → 2 + size_of f + trailer_size f ≤ length rest
        → L.incoming p ≡ packet g number comp block tag ++ inc
        → (rest' : List ℕ) × (p' : P.Port) × (waiting h channel
              (suc fuel)
              (suc k)
              (vars f small n tx err false)
              (at P (b ∷ rest) c p)
            ≡ waiting h channel fuel wait_rounds
                (vars f small' n nak tries false)
                (at P (nul ∷ rest') c p'))
          × (length rest' ≡ length rest)
          × (L.incoming p' ≡ inc)
          × (L.outgoing p' ≡ L.outgoing p ++ nak ∷ [])
          × (L.later p' ≡ L.later p)
  round_refused fuel k f small small' n tx err tries b number comp block tag rest inc c p counted
        few size tagged bytes bad step room arrives =
      let g = packet_mode f small' in
      let body = number ∷ comp ∷ (block ++ tag) in
      let (p1, first, in1, out1, quiet1) =
        first_step L k f small n tx err tries (start_of g) b rest (body ++ inc) c p counted few
          arrives in
      let (back, p2, tested, long, in2, out2, quiet2) =
        rx_packet_lem channel L (suc fuel) f small small' n tx tries number comp block tag rest inc
          c p1 size tagged step (room_for f small' (length rest) room) in1 in
      let (p3, answer, in3, out3, quiet3) =
        reject_lem channel L f small' n tx tries
          (start_of g ∷ number ∷ comp ∷ ((block ++ tag) ++ back)) c p2 in
      let rest' = number ∷ comp ∷ ((block ++ tag) ++ back) in
      (
        rest',
        p3,
        rw
            (
              first,
              sign-start_of f small',
              tested,
              verdict-other P.int_bits g block tag wide tagged bytes bad,
              answer,
            )
            (rx_loop-resume {P = P} h channel fuel (vars f small' n nak tries false) (start_of g)
              rest' c p3),
        omega (arith, length-append {0} (block ++ tag) back, length-append {0} block tag),
        in3 ∙ in2,
        out3 ∙ ap (λ t. t ++ nak ∷ []) (out2 ∙ out1),
        quiet3 ∙ quiet2 ∙ quiet1,
      )
