-- ===== src/Xmodem/Tx/Round.antt =====
-- One round of the packet loop of `xmodem_tx` on a line that works: the packet that goes out, and
-- what each answer does.
use libmodem.Crc.{generate_chksum, generate_crc, generate_crc-lt}
use libmodem.Modem.{
  ack, nak, start_char, data_start, block_no, OutputChannel, XferMode, xmodem, xmodem_crc,
  xmodem_1k, is_xmodem,
}
use libmodem.Prelude.{
  ℕ, ◌+◌, ◌-◌, ◌%◌, ◌^◌, ◌≤◌, ◌≡◌, refl, sym, ap, ◌∙◌, Bool, false, List, [], ◌∷◌, ◌++◌, length,
  take, drop, ltb, if◌then◌else◌, arith, length-append, length-take, length-drop, take-append-drop,
  append_assoc,
}
use libmodem.Serial.Primitives.{Serprim, Handle}
use libmodem.Xmodem.Buffer.{at, load_ok, store_ok}
use libmodem.Xmodem.Frame.{
  start_of, size_of, trailer_size, trailer, frame, block_of, settle, vars, crc_bytes_lem,
  length-trailer, length-block_of,
}
use libmodem.Xmodem.Line.{IsLine, snd_ok, flush_ok, rcv_ok}
use libmodem.Xmodem.Session.{and_then, ok, store, load_byte}
use libmodem.Xmodem.Tx.{TxVars, crc_bytes, seal, send_and_wait, interpret, tx_round}
use libmodem.Xmodem.Tx.Fill.{IsReader, fill_lem}

-- What is stored behind the block.
tag_of :
    (w : ℕ) (g : XferMode) (block : List ℕ)
    → (if is_xmodem g then generate_chksum block ∷ [] else crc_bytes (generate_crc w block))
      ≡ trailer w g block
tag_of w xmodem block = refl
tag_of w xmodem_crc block = crc_bytes_lem (generate_crc w block) (generate_crc-lt w block)
tag_of w xmodem_1k block = crc_bytes_lem (generate_crc w block) (generate_crc-lt w block)

-- The small packets need no more room.
room_settle :
    (f : XferMode) (rest : List ℕ) (room left : ℕ)
    → size_of f + trailer_size f ≤ room
    → size_of (settle f rest) + left ≡ room
    → trailer_size (settle f rest) ≤ left
room_settle xmodem rest room left h e = omega arith
room_settle xmodem_crc rest room left h e = omega arith
room_settle xmodem_1k rest room left h e = ground arith

module _ {P : Serprim} {C : Type 0} (c : C) (p : P.Port) where
  seal_lem :
      (g : XferMode) (last code a b d : ℕ) (eof : Bool) (block tail : List ℕ)
      → length block ≡ size_of g
      → trailer_size g ≤ length tail
      → seal (vars g last eof code) (at P (a ∷ b ∷ d ∷ (block ++ tail)) c p)
        ≡ ok tt (
            at P
              (a ∷ b ∷ d ∷ (block ++ (trailer P.int_bits g block ++ drop (trailer_size g) tail)))
              c
              p)
  unfolding seal
  seal_lem g last code a b d eof block tail e room =
      let tag = trailer P.int_bits g block in
      let k : ℕ = trailer_size g in
      let stored : store (data_start + size_of g) tag (at P (a ∷ b ∷ d ∷ (block ++ tail)) c p)
          ≡ ok tt (at P (a ∷ b ∷ d ∷ (block ++ (tag ++ drop k tail))) c p) =
        ap (λ t. store (data_start + size_of g) tag (at P (a ∷ b ∷ d ∷ (block ++ t)) c p))
          (sym (take-append-drop k tail))
        ∙ store_ok {P = P} c p (a ∷ b ∷ d ∷ block) (take k tail) (drop k tail)
            (data_start + size_of g) tag (omega arith)
            (omega (arith, length-trailer P.int_bits g block, length-take {0} k tail)) in
      rw (
        load_ok {P = P} c p (a ∷ b ∷ d ∷ []) block tail data_start (size_of g) refl (sym e),
        tag_of P.int_bits g block,
        stored,
      )

  -- Sending a packet and waiting for an answer.
  send_lem :
      {h : Handle} (L : IsLine P h) (v : TxVars) (size r : ℕ) (packet rest inc : List ℕ)
      → size ≡ length packet
      → L.incoming p ≡ r ∷ inc
      → (p' : P.Port) × (send_and_wait h size v (at P (packet ++ rest) c p)
          ≡ ok (record v { rx_code = r }) (at P (packet ++ rest) c p'))
        × (L.incoming p' ≡ inc)
        × (L.outgoing p' ≡ L.outgoing p ++ packet)
        × (L.later p' ≡ L.later p)
  unfolding send_and_wait
  send_lem {h} L v size r packet rest inc e arrives =
      let s = at P (packet ++ rest) c p in
      let (p1, sent, in1, out1, quiet1) = snd_ok L packet s in
      let (p2, status, flushed, in2, out2, quiet2) = flush_ok L (at P (packet ++ rest) c p1) in
      let (p3, got, in3, out3, quiet3) =
        rcv_ok L (r ∷ []) inc 1 60 (at P (packet ++ rest) c p2) (in2 ∙ in1 ∙ arrives) refl in
      (
        p3,
        rw (load_ok {P = P} c p [] packet rest start_char size refl e, sent, flushed, got),
        in3,
        out3 ∙ out2 ∙ out1,
        quiet3 ∙ quiet2 ∙ quiet1,
      )

  -- An ACK moves the block number on.
  pub interpret-ack :
      (g : XferMode) (last a n d : ℕ) (eof : Bool) (body : List ℕ)
      → let n' = (n + 1) % 2 ^ 8 in
        interpret (vars g last eof ack) (at P (a ∷ n ∷ d ∷ body) c p)
        ≡ ok (vars g (size_of g) eof ack) (at P (a ∷ n' ∷ (255 - n') ∷ body) c p)
  unfolding interpret load_byte
  interpret-ack g last a n d eof body =
      let n' : ℕ = (n + 1) % 2 ^ 8 in
      rw (
        load_ok {P = P} c p (a ∷ []) (n ∷ []) (d ∷ body) block_no 1 refl refl,
        store_ok {P = P} c p (a ∷ []) (n ∷ d ∷ []) body block_no (n' ∷ (255 - n') ∷ []) refl refl,
      )

  -- A NAK has the same block sent again.
  pub interpret-nak :
      (g : XferMode) (last : ℕ) (eof : Bool) (b : List ℕ)
      → interpret (vars g last eof nak) (at P b c p) ≡ ok (vars g 0 false nak) (at P b c p)
  unfolding interpret
  interpret-nak g last eof b = refl

module _ {P : Serprim} {C : Type 0} (c : C) (p : P.Port) where
  -- One round up to the sending of the packet.
  pub round_sends :
      (h : Handle) {channel : OutputChannel C} (R : IsReader channel) (f : XferMode)
      (last code n : ℕ) (body : List ℕ)
      → R.Serves last c
      → size_of f + trailer_size f ≤ length body
      → let rest = drop last (R.file c) in
        let g = settle f rest in
        let short = ltb (length rest) (size_of g) in
        let packet = frame P.int_bits g n (block_of (size_of g) rest) in
        (more : List ℕ) × (tx_round h channel
            (vars f last false code)
            (at P (start_of f ∷ n ∷ (255 - n) ∷ body) c p)
          ≡ and_then
              (send_and_wait h
                (data_start + size_of g + trailer_size g)
                (vars g last short code)
                (at P (packet ++ more) (channel (size_of f) last c).chan p))
              interpret)
        × (length (packet ++ more) ≡ length body + 3)
        × (data_start + size_of g + trailer_size g ≡ length packet)
  unfolding tx_round
  round_sends h {channel} R f last code n body ahead room =
      let rest = drop last (R.file c) in
      let g = settle f rest in
      let short = ltb (length rest) (size_of g) in
      let block = block_of (size_of g) rest in
      let tag = trailer P.int_bits g block in
      let k : ℕ = trailer_size g in
      let c' = (channel (size_of f) last c).chan in
      let (tail, filled, len) =
        fill_lem {P = P} c p R f last code n (255 - n) body ahead (omega arith) in
      let more = drop k tail in
      let room' : k ≤ length tail = room_settle f rest (length body) (length tail) room len in
      let packet = frame P.int_bits g n block in
      let sealed : seal (vars g last short code)
            (at P (start_of g ∷ n ∷ (255 - n) ∷ (block ++ tail)) c' p)
          ≡ ok tt (at P (packet ++ more) c' p) =
        seal_lem {P = P} c' p g last code (start_of g) n (255 - n) short block tail
          (length-block_of (size_of g) rest) room'
        ∙ ap (λ t. ok tt (at P (start_of g ∷ n ∷ (255 - n) ∷ t) c' p))
            (sym (append_assoc block tag more)) in
      let packet_length : data_start + size_of g + k ≡ length packet = omega (
        arith,
        length-append {0} block tag,
        length-block_of (size_of g) rest,
        length-trailer P.int_bits g block,
      ) in
      (
        more,
        rw (filled, sealed) refl,
        omega (arith, length-append {0} packet more, length-drop {0} k tail),
        packet_length,
      )

  -- One round up to the answer `r`, which the caller of this lemma interprets.
  pub round_lem :
      {h : Handle} {channel : OutputChannel C} (L : IsLine P h) (R : IsReader channel)
      (f : XferMode) (last code n r : ℕ) (body inc : List ℕ)
      → R.Serves last c
      → size_of f + trailer_size f ≤ length body
      → L.incoming p ≡ r ∷ inc
      → let rest = drop last (R.file c) in
        let g = settle f rest in
        let short = ltb (length rest) (size_of g) in
        let packet = frame P.int_bits g n (block_of (size_of g) rest) in
        (more : List ℕ) × (p' : P.Port) × (tx_round h channel
            (vars f last false code)
            (at P (start_of f ∷ n ∷ (255 - n) ∷ body) c p)
          ≡ interpret
              (vars g last short r)
              (at P (packet ++ more) (channel (size_of f) last c).chan p'))
        × (length (packet ++ more) ≡ length body + 3)
        × (L.incoming p' ≡ inc)
        × (L.outgoing p' ≡ L.outgoing p ++ packet)
        × (L.later p' ≡ L.later p)
  round_lem {h} {channel} L R f last code n r body inc ahead room arrives =
      let rest = drop last (R.file c) in
      let g = settle f rest in
      let packet = frame P.int_bits g n (block_of (size_of g) rest) in
      let c' = (channel (size_of f) last c).chan in
      let (more, sends, len, packet_length) = round_sends h R f last code n body ahead room in
      let (p', sent, left, out, quiet) =
        send_lem {P = P} c' p L (vars g last (ltb (length rest) (size_of g)) code)
          (data_start + size_of g + trailer_size g) r packet more inc packet_length arrives in
      (more, p', rw (sends, sent) refl, len, left, out, quiet)
