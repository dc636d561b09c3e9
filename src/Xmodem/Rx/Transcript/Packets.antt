-- ===== src/Xmodem/Rx/Transcript/Packets.antt =====
-- Packets that `xmodem_rx` of src/xmodem.c cannot use: one that is cut short by a pause, and one
-- with neither number right.
use libmodem.Modem.{
  nul, nak, block_no, data_start, packet_mismatch, can, InputChannel, XferMode,
  serial_to_modem_error,
}
use libmodem.Prelude.{
  ℕ, suc, ◌+◌, ◌-◌, ◌%◌, ◌^◌, ◌≤◌, ◌<◌, ◌≡◌, ◌≢◌, refl, sym, ap, ◌∙◌, Bool, false, List, [], ◌∷◌,
  ◌++◌, length, take, drop, arith, length-take, length-drop, length-append, take-append-drop,
}
use libmodem.Serial.Primitives.{Serprim, Handle}
use libmodem.Xmodem.Buffer.{at, load_ok, store_ok}
use libmodem.Xmodem.Frame.{start_of, size_of, trailer_size}
use libmodem.Xmodem.Line.{IsLine, rcv_ok, snd_ok}
use libmodem.Xmodem.Rx.Counter.{room_for}
use libmodem.Xmodem.Rx.{wait_rounds, check_packet, respond, rx_packet}
use libmodem.Xmodem.Rx.Course.{packet_mode, patience}
use libmodem.Xmodem.Rx.First.{vars, adjust-vars, sign-start_of, first_step}
use libmodem.Xmodem.Rx.Mismatch.{check_packet-mismatch}
use libmodem.Xmodem.Rx.Rounds.{waiting, rx_loop-resume}
use libmodem.Xmodem.Pauses.{Pauses, rcv_late, purge-late}
use libmodem.Xmodem.Session.{ok, stop, load_byte, store}

module _ {P : Serprim} {h : Handle} {C : Type 0} (channel : InputChannel C) (L : IsLine P h) where
  -- The bytes behind the first one are stored behind it.
  store_behind :
      (a : ℕ) (part rest : List ℕ) (c : C) (p : P.Port)
      → length part ≤ length rest
      → store 1 part (at P (a ∷ rest) c p)
        ≡ ok tt (at P (a ∷ (part ++ drop (length part) rest)) c p)
  store_behind a part rest c p fits =
      let k : ℕ = length part in
      ap (λ t. store 1 part (at P (a ∷ t) c p)) (sym (take-append-drop k rest))
      ∙ store_ok {P = P} c p (a ∷ []) (take k rest) (drop k rest) 1 part refl
          (omega (arith, length-take {0} k rest))

  -- A packet that a pause cuts short: what comes behind it is dropped, and a NAK is sent.
  packet_late :
      (D : Pauses L) (fuel : ℕ) (f : XferMode) (small small' : Bool) (n tx tries : ℕ)
      (part junk next rest : List ℕ) (others : List (List ℕ)) (c : C) (p : P.Port)
      → let g = packet_mode f small' in
        length part < 2 + size_of g + trailer_size g
        → length junk < fuel
        → 2 + size_of g + trailer_size g ≤ length rest
        → L.incoming p ≡ part
        → L.later p ≡ junk ∷ next ∷ others
        → (p' : P.Port) × (rx_packet h channel fuel
              (vars f small n tx tries false)
              (at P (start_of g ∷ rest) c p)
            ≡ ok
                (vars f small' n nak tries false)
                (at P (start_of g ∷ (part ++ drop (length part) rest)) c p'))
          × (L.incoming p' ≡ next)
          × (L.outgoing p' ≡ L.outgoing p ++ nak ∷ [])
          × (L.later p' ≡ others)
  unfolding rx_packet check_packet load_byte respond serial_to_modem_error
  packet_late D fuel f small small' n tx tries part junk next rest others c p short few room arrives
        pauses =
      let g = packet_mode f small' in
      let a : ℕ = start_of g in
      let buffer = a ∷ (part ++ drop (length part) rest) in
      let (p1, got, in1, out1, quiet1) =
        rcv_late D part junk (next ∷ others) (data_start + size_of g + trailer_size g - block_no) 1
          (at P (a ∷ rest) c p) arrives pauses (omega arith) in
      let (p2, purged, in2, out2, quiet2) =
        purge-late D fuel junk next others (at P buffer c p1) few in1 quiet1 in
      let (p3, sent, in3, out3, quiet3) = snd_ok L (nak ∷ []) (at P buffer c p2) in
      (
        p3,
        rw
            (
              load_ok {P = P} c p [] (a ∷ []) rest 0 1 refl refl,
              adjust-vars f small small' n tx tries,
              got,
              store_behind a part rest c p1 (omega arith),
              purged,
              sent,
            )
            refl,
        in3 ∙ in2,
        out3 ∙ ap (λ t. t ++ nak ∷ []) (out2 ∙ out1),
        quiet3 ∙ quiet2,
      )

  -- A packet with neither number right ends the transfer.
  pub packet_astray :
      (fuel : ℕ) (f : XferMode) (small small' : Bool) (n tx tries number comp : ℕ)
      (body rest inc : List ℕ) (c : C) (p : P.Port)
      → let g = packet_mode f small' in
        length body ≡ size_of g + trailer_size g
        → number ≢ n
        → comp ≢ 255 - n
        → 2 + size_of g + trailer_size g ≤ length rest
        → L.incoming p ≡ (number ∷ comp ∷ body) ++ inc
        → (back : List ℕ) × (p' : P.Port) × (rx_packet h channel fuel
              (vars f small n tx tries false)
              (at P (start_of g ∷ rest) c p)
            ≡ stop packet_mismatch (at P (start_of g ∷ number ∷ comp ∷ (body ++ back)) c p'))
          × (L.incoming p' ≡ inc)
          × (L.outgoing p' ≡ L.outgoing p ++ can ∷ [])
          × (L.later p' ≡ L.later p)
  unfolding rx_packet load_byte
  packet_astray fuel f small small' n tx tries number comp body rest inc c p size wrong wrong' room
        arrives =
      let g = packet_mode f small' in
      let a : ℕ = start_of g in
      let back = drop (suc (suc (length body))) rest in
      let (p1, got, in1, out1, quiet1) =
        rcv_ok L (number ∷ comp ∷ body) inc (data_start + size_of g + trailer_size g - block_no) 1
          (at P (a ∷ rest) c p) arrives (omega arith) in
      let stored : store 1 (number ∷ comp ∷ body) (at P (a ∷ rest) c p1)
          ≡ ok tt (at P (a ∷ number ∷ comp ∷ (body ++ back)) c p1) =
        store_behind a (number ∷ comp ∷ body) rest c p1 (omega arith) in
      let (p2, tested, in2, out2, quiet2) =
        check_packet-mismatch L fuel f small' n tx tries a number comp (body ++ back) c p1 wrong
          wrong' in
      (
        back,
        p2,
        rw
            (
              load_ok {P = P} c p [] (a ∷ []) rest 0 1 refl refl,
              adjust-vars f small small' n tx tries,
              got,
              stored,
              tested,
            )
            refl,
        in2 ∙ in1,
        out2 ∙ ap (λ t. t ++ can ∷ []) out1,
        quiet2 ∙ quiet1,
      )

  -- The round of a packet that is cut short.
  pub round_cut :
      (D : Pauses L) (fuel k : ℕ) (f : XferMode) (small small' : Bool) (n tx err tries b : ℕ)
      (part junk next rest : List ℕ) (others : List (List ℕ)) (c : C) (p : P.Port)
      → let g = packet_mode f small' in
        (err + 1) % 2 ^ P.int_bits ≡ tries
        → tries ≤ patience f
        → length part < 2 + size_of g + trailer_size g
        → length junk < suc fuel
        → 2 + size_of f + trailer_size f ≤ length rest
        → L.incoming p ≡ start_of g ∷ part
        → L.later p ≡ junk ∷ next ∷ others
        → (rest' : List ℕ) × (p' : P.Port) × (waiting h channel
              (suc fuel)
              (suc k)
              (vars f small n tx err false)
              (at P (b ∷ rest) c p)
            ≡ waiting h channel fuel wait_rounds
                (vars f small' n nak tries false)
                (at P (nul ∷ rest') c p'))
          × (length rest' ≡ length rest)
          × (L.incoming p' ≡ next)
          × (L.outgoing p' ≡ L.outgoing p ++ nak ∷ [])
          × (L.later p' ≡ others)
  round_cut D fuel k f small small' n tx err tries b part junk next rest others c p counted few
        short short' room arrives pauses =
      let g = packet_mode f small' in
      let fits = room_for f small' (length rest) room in
      let (p1, first, in1, out1, quiet1) =
        first_step L k f small n tx err tries (start_of g) b rest part c p counted few arrives in
      let (p2, answer, in2, out2, quiet2) =
        packet_late D (suc fuel) f small small' n tx tries part junk next rest others c p1 short
          short' fits in1 (quiet1 ∙ pauses) in
      let rest' = part ++ drop (length part) rest in
      (
        rest',
        p2,
        rw (first, sign-start_of f small', answer)
            (rx_loop-resume {P = P} h channel fuel (vars f small' n nak tries false) (start_of g)
              rest' c p2),
        omega (
          arith,
          length-append {0} part (drop (length part) rest),
          length-drop {0} (length part) rest,
          fits,
        ),
        in2,
        out2 ∙ ap (λ t. t ++ nak ∷ []) out1,
        quiet2,
      )
