-- ===== src/Xmodem/Tx/Packets.antt =====
-- The packet loop of `xmodem_tx` on a line that works, for every course of ACK and NAK answers.
use libmodem.Modem.{ack, nak, OutputChannel, XferMode, xmodem, xmodem_crc, xmodem_1k}
use libmodem.Prelude.{
  ℕ, zero, suc, ◌+◌, ◌-◌, ◌%◌, ◌^◌, ◌≤◌, ◌<◌, ◌≡◌, refl, sym, ap, ◌∙◌, true, false, List, [], ◌∷◌,
  ◌++◌, length, drop, ltb, arith, append_assoc, lt→ltb, subst,
}
use libmodem.Serial.Primitives.{Serprim, Handle}
use libmodem.Xmodem.Buffer.{at}
use libmodem.Xmodem.Frame.{start_of, size_of, trailer_size, trailer, frame, block_of, settle, vars}
use libmodem.Xmodem.Line.{IsLine}
use libmodem.Xmodem.Session.{Session, ok}
use libmodem.Xmodem.Tx.{packet_loop, TxVars}
use libmodem.Xmodem.Tx.Fill.{IsReader}
use libmodem.Xmodem.Tx.Round.{round_lem, interpret-ack}

-- The transmitter's side of the protocol: in a mode, from a block number on, with this much of the
-- file left, these answers draw these bytes. A NAK has the block sent again, an ACK brings the
-- next one, and the ACK of a block that is not full ends the packets.
pub data Sends (w : ℕ) : XferMode → ℕ → List ℕ → List ℕ → List ℕ → Type 0 where
  final :
      {f : XferMode} {n : ℕ} {file answers out : List ℕ}
      → length file < size_of (settle f file)
      → answers ≡ ack ∷ []
      → out ≡ frame w (settle f file) n (block_of (size_of (settle f file)) file)
      → Sends w f n file answers out
  next_block :
      {f : XferMode} {n : ℕ} {file answers out answers' out' : List ℕ}
      → size_of (settle f file) ≤ length file
      → Sends w
          (settle f file)
          ((n + 1) % 2 ^ 8)
          (drop (size_of (settle f file)) file)
          answers'
          out'
      → answers ≡ ack ∷ answers'
      → out ≡ frame w (settle f file) n (block_of (size_of (settle f file)) file) ++ out'
      → Sends w f n file answers out
  repeated :
      {f : XferMode} {n : ℕ} {file answers out answers' out' : List ℕ}
      → Sends w (settle f file) n file answers' out'
      → answers ≡ nak ∷ answers'
      → out ≡ frame w (settle f file) n (block_of (size_of (settle f file)) file) ++ out'
      → Sends w f n file answers out

pub need-le :
    (f : XferMode) (rest : List ℕ) (room : ℕ)
    → size_of f + trailer_size f ≤ room
    → size_of (settle f rest) + trailer_size (settle f rest) ≤ room
need-le xmodem rest room h = h
need-le xmodem_crc rest room h = h
need-le xmodem_1k rest room h = ground arith

pub ltb_of_le : (a b : ℕ) → b ≤ a → ltb a b ≡ false
ltb_of_le a b h = ground arith

module _ {P : Serprim} {h : Handle} {C : Type 0} {channel : OutputChannel C} (L : IsLine P h)
    (R : IsReader channel) where
  -- The packets of a transmission.
  pub packets_lem :
      (fuel : ℕ) {f : XferMode} {n : ℕ} {answers out : List ℕ} (c : C) (p : P.Port) (last code : ℕ)
      (body inc : List ℕ)
      → Sends P.int_bits f n (drop last (R.file c)) answers out
      → length answers ≤ fuel
      → R.Serves last c
      → size_of f + trailer_size f ≤ length body
      → L.incoming p ≡ answers ++ inc
      → (v' : TxVars) × (s' : Session P C) × (packet_loop h channel fuel
            (vars f last false code)
            (at P (start_of f ∷ n ∷ (255 - n) ∷ body) c p)
          ≡ ok v' s')
        × (L.incoming s'.port ≡ inc)
        × (L.outgoing s'.port ≡ L.outgoing p ++ out)
  unfolding packet_loop
  packets_lem zero c p last code body inc (final short e eo) enough ahead room arrives =
      absurd (omega (arith, ap length e))
  packets_lem zero c p last code body inc (next_block full more e eo) enough ahead room arrives =
      absurd (omega (arith, ap length e))
  packets_lem zero c p last code body inc (repeated more e eo) enough ahead room arrives =
      absurd (omega (arith, ap length e))
  packets_lem (suc fuel) {f} {n} c p last code body inc (final short e eo) enough ahead room
        arrives =
      let rest = drop last (R.file c) in
      let g = settle f rest in
      let c' = (channel (size_of f) last c).chan in
      let (left, p', stepped, len, in', out', quiet) =
        round_lem {P = P} c p L R f last code n ack body inc ahead room
          (arrives ∙ ap (λ t. t ++ inc) e) in
      let size : ℕ = size_of g in
      let block = block_of size rest in
      let n' : ℕ = (n + 1) % 2 ^ 8 in
      let body' = block ++ trailer P.int_bits g block ++ left in
      (
        vars g size true ack,
        at P (start_of g ∷ n' ∷ (255 - n') ∷ body') c' p',
        rw
            (
              stepped,
              interpret-ack {P = P} c' p' g last (start_of g) n (255 - n) (ltb (length rest) size)
                  body',
              lt→ltb (length rest) size short,
            )
            refl,
        in',
        out' ∙ ap (λ t. L.outgoing p ++ t) (sym eo),
      )
  packets_lem (suc fuel) {f} {n} c p last code body inc
        (next_block {answers' = later} {out' = o} full more e eo) enough ahead room arrives =
      let rest = drop last (R.file c) in
      let g = settle f rest in
      let size : ℕ = size_of g in
      let c' = (channel (size_of f) last c).chan in
      let block = block_of size rest in
      let (left, p', stepped, len, in', out', quiet) =
        round_lem {P = P} c p L R f last code n ack body (later ++ inc) ahead room
          (arrives ∙ ap (λ t. t ++ inc) e) in
      let body' = block ++ trailer P.int_bits g block ++ left in
      let moved = R.moves (size_of f) last c ahead in
      let (v', s', loops, in'', out'') =
        packets_lem fuel c' p' size ack body' inc
          (subst (λ x. Sends P.int_bits g ((n + 1) % 2 ^ 8) (drop size x) later o) (sym moved) more)
          (omega (arith, ap length e)) (R.stays (size_of f) last size c ahead full)
          (need-le f rest (length body') (omega arith)) in' in
      (
        v',
        s',
        rw
            (
              stepped,
              interpret-ack {P = P} c' p' g last (start_of g) n (255 - n) (ltb (length rest) size)
                  body',
              ltb_of_le (length rest) size full,
            )
            loops,
        in'',
        out''
            ∙ ap (λ t. t ++ o) out'
            ∙ append_assoc (L.outgoing p) _ o
            ∙ ap (λ t. L.outgoing p ++ t) (sym eo),
      )
  packets_lem (suc fuel) {f} {n} c p last code body inc
        (repeated {answers' = later} {out' = o} more e eo) enough ahead room arrives =
      let rest = drop last (R.file c) in
      let g = settle f rest in
      let size : ℕ = size_of g in
      let c' = (channel (size_of f) last c).chan in
      let block = block_of size rest in
      let (left, p', stepped, len, in', out', quiet) =
        round_lem {P = P} c p L R f last code n nak body (later ++ inc) ahead room
          (arrives ∙ ap (λ t. t ++ inc) e) in
      let body' = block ++ trailer P.int_bits g block ++ left in
      let moved = R.moves (size_of f) last c ahead in
      let (v', s', loops, in'', out'') =
        packets_lem fuel c' p' 0 nak body' inc
          (subst (λ x. Sends P.int_bits g n x later o) (sym moved) more)
          (omega (arith, ap length e)) (R.stays (size_of f) last 0 c ahead (omega arith))
          (need-le f rest (length body') (omega arith)) in' in
      (
        v',
        s',
        rw stepped loops,
        in'',
        out''
            ∙ ap (λ t. t ++ o) out'
            ∙ append_assoc (L.outgoing p) _ o
            ∙ ap (λ t. L.outgoing p ++ t) (sym eo),
      )
