-- ===== src/Xmodem/Tx/Transfer.antt =====
-- A whole transmission of `xmodem_tx` on a line that works, for every course of answers that ends
-- in success: noise before the start, packets asked for again, and deaf ears at the end.
use libmodem.Modem.{
  nul, eot, ack, can, start_char, OutputChannel, modem_no_errors, XferMode, xmodem, xmodem_crc,
  xmodem_1k,
}
use libmodem.Prelude.{
  ℕ, suc, ◌+◌, ◌≤◌, ◌<◌, ◌≡◌, ◌≢◌, refl, sym, ap, ◌∙◌, false, List, [], ◌∷◌, ◌++◌, All, length,
  take, drop, replicate, arith, append_assoc, take-append-drop, length-take, length-drop,
}
use libmodem.Serial.Primitives.{Serprim, Handle}
use libmodem.Xmodem.Buffer.{at, store_ok}
use libmodem.Xmodem.Frame.{start_of, size_of, trailer_size, vars}
use libmodem.Xmodem.Line.{IsLine, flush_ok}
use libmodem.Xmodem.Session.{Session, ok, store}
use libmodem.Xmodem.Tx.{xmodem_tx, tx_start, header}
use libmodem.Xmodem.Tx.Fill.{IsReader}
use libmodem.Xmodem.Tx.Packets.{Sends, packets_lem}
use libmodem.Xmodem.Tx.Phases.{request, ready_lem, eot_lem}

pub tx_start-vars : (f : XferMode) → tx_start f ≡ vars f 0 false nul
unfolding tx_start
tx_start-vars xmodem = refl
tx_start-vars xmodem_crc = refl
tx_start-vars xmodem_1k = refl

module _ {P : Serprim} {C : Type 0} (c : C) (p : P.Port) where
  pub header_lem :
      (f : XferMode) (buffer : List ℕ)
      → 3 ≤ length buffer
      → store start_char (header f) (at P buffer c p)
        ≡ ok tt (at P (start_of f ∷ 1 ∷ 254 ∷ drop 3 buffer) c p)
  unfolding header
  header_lem f buffer room =
      ap (λ t. store start_char (header f) (at P t c p)) (sym (take-append-drop 3 buffer))
      ∙ store_ok {P = P} c p [] (take 3 buffer) (drop 3 buffer) start_char (header f) refl
          (omega (arith, length-take {0} 3 buffer))

-- On a line that works, with a channel that hands out a file and may be asked for it, a buffer as
-- large as the mode's packet and fuel for every character that arrives: if the request for the mode
-- comes, after other characters, then answers by which the protocol sends `out` for the file from
-- block 1 on, then an ACK, after characters that are neither ACK nor CAN, then `xmodem_tx` returns
-- no error, has sent `out` and an EOT for each of the last characters, and has read nothing
-- further.
pub xmodem_tx-Sends :
    {P : Serprim} {h : Handle} {C : Type 0} {channel : OutputChannel C} (L : IsLine P h)
    (R : IsReader channel) (f : XferMode) (fuel : ℕ) (noise answers deaf inc out buffer : List ℕ)
    (c : C) (p : P.Port)
    → R.Serves 0 c
    → Sends P.int_bits f 1 (R.file c) answers out
    → All (λ x. x ≢ request f) noise
    → All (λ x. (x ≢ ack) × (x ≢ can)) deaf
    → L.incoming p ≡ noise ++ (request f ∷ (answers ++ (deaf ++ (ack ∷ inc))))
    → 3 + size_of f + trailer_size f ≤ length buffer
    → length noise < fuel
    → length answers ≤ fuel
    → length deaf < fuel
    → (s' : Session P C) × (xmodem_tx h channel f fuel (at P buffer c p) ≡ ok modem_no_errors s')
      × (L.incoming s'.port ≡ inc)
      × (L.outgoing s'.port ≡ L.outgoing p ++ (out ++ replicate (suc (length deaf)) eot))
unfolding xmodem_tx
xmodem_tx-Sends {P} {h} {channel} L R f fuel noise answers deaf inc out buffer c p ready_channel
      sends noisy deafs arrives room enough enough' enough'' =
    let (p1, status, flushed, in1, out1, quiet1) = flush_ok L (at P buffer c p) in
    let (p2, ready, in2, out2) =
      ready_lem L f fuel noise (answers ++ (deaf ++ (ack ∷ inc))) 0 nul (at P buffer c p1) noisy
        enough (in1 ∙ arrives) in
    let (v3, s3, packets, in3, out3) =
      packets_lem L R fuel {f = f} {n = 1} c p2 0 nul (drop 3 buffer) (deaf ++ (ack ∷ inc)) sends
        enough' ready_channel (omega (arith, length-drop {0} 3 buffer)) in2 in
    let (s4, ended, in4, out4) = eot_lem L fuel deaf inc v3.rx_code s3 deafs enough'' in3 in
    (
      s4,
      rw
          (
            flushed,
            ready,
            header_lem {P = P} c p2 f buffer (omega arith),
            tx_start-vars f,
            packets,
            ended,
          )
          refl,
      in4,
      out4
          ∙ ap (λ t. t ++ replicate (suc (length deaf)) eot)
              (out3 ∙ ap (λ t. t ++ out) (out2 ∙ out1))
          ∙ append_assoc (L.outgoing p) out (replicate (suc (length deaf)) eot),
    )
