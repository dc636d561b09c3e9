-- ===== src/Xmodem/Rx/Transcript/Transfer.antt =====
-- A whole reception of `xmodem_rx` on a line that pauses.
use libmodem.Modem.{nul, ack, InputChannel, ModemError, modem_no_errors, XferMode}
use libmodem.Prelude.{
  ℕ, zero, suc, ◌+◌, ◌-◌, ◌^◌, ◌≤◌, ◌<◌, ◌≡◌, refl, sym, ap, ◌∙◌, false, List, [], ◌∷◌, ◌++◌,
  length, arith, append-nil,
}
use libmodem.Serial.Primitives.{Serprim, Handle}
use libmodem.Xmodem.Buffer.{at}
use libmodem.Xmodem.Frame.{size_of, trailer_size}
use libmodem.Xmodem.Line.{IsLine, snd_ok}
use libmodem.Xmodem.Rx.{RxVars, wait_rounds, rx_loop, rx_start, xmodem_rx}
use libmodem.Xmodem.Rx.Counter.{wraps}
use libmodem.Xmodem.Rx.First.{vars, rx_start-vars}
use libmodem.Xmodem.Rx.Packet.{IsWriter}
use libmodem.Xmodem.Rx.Reception.{chain}
use libmodem.Xmodem.Rx.Rounds.{rx_loop-resume}
use libmodem.Xmodem.Rx.Transcript.{Transcript}
use libmodem.Xmodem.Rx.Transcript.Outcome.{ended_by, nul-IsIdle}
use libmodem.Xmodem.Pauses.{Ending, Pauses}
use libmodem.Xmodem.Rx.Transcript.Rounds.{Follows}
use libmodem.Xmodem.Rx.Transcript.Runs.{follows_lem}
use libmodem.Xmodem.Rx.Transfer.{rx_start-request}
use libmodem.Xmodem.Session.{Session, ok, returned, and_then, ◌>>◌, pure, snd}
use libmodem.Xmodem.Tx.Phases.{request}

-- What `xmodem_rx` sends at the very end.
abbrev pub closing : ModemError → List ℕ
closing modem_no_errors = ack ∷ []
closing _ = []

module _ {P : Serprim} {h : Handle} {C : Type 0} {channel : InputChannel C} (L : IsLine P h)
    (D : Pauses L) (W : IsWriter channel) (wide : 16 ≤ P.int_bits) (wide' : 1024 < 2 ^ P.size_bits)
    (most : ℕ) (z : Ending) where
  -- The loop over the packets, from the start of the transfer.
  whole_loop_lem :
      (f : XferMode) (fuel : ℕ) (now answers held buffer : List ℕ) (later : List (List ℕ)) (c : C)
      (p : P.Port)
      → Transcript P.int_bits most z f 1 0 (request f) now later answers held
      → L.incoming p ≡ now
      → L.later p ≡ later
      → 3 + size_of f + trailer_size f ≤ length buffer
      → length answers + most < fuel
      → W.HasRoom (length held) c
      → Follows L D W z
          (rx_loop h channel fuel (rx_start P.int_bits f) (at P buffer c p))
          c
          p
          answers
          held
  whole_loop_lem f zero now answers held buffer later c p course arrives pauses room enough roomy =
      absurd (omega arith)
  whole_loop_lem f (suc fuel) now answers held [] later c p course arrives pauses room enough
        roomy =
      absurd (omega arith)
  whole_loop_lem f (suc fuel) now answers held (b ∷ rest) later c p course arrives pauses room
        enough roomy =
      let v = vars f false 1 (request f) (2 ^ P.int_bits - 1) false in
      let starts : rx_start P.int_bits f ≡ v =
        rx_start-vars P.int_bits f
        ∙ ap (λ (t : ℕ). vars f false 1 t (2 ^ P.int_bits - 1) false)
            (rx_start-request P.int_bits f) in
      let (v', s', run, in1, quiet1, out1, kept) =
        follows_lem L D W wide wide' most z fuel wait_rounds false (2 ^ P.int_bits - 1) nul rest c p
          course (wraps P.int_bits wide) (omega arith) (omega arith) (omega arith) (nul-IsIdle f)
          arrives pauses roomy in
      (
        v',
        s',
        ap (λ t. rx_loop h channel (suc fuel) t (at P (b ∷ rest) c p)) starts
            ∙ rx_loop-resume {P = P} h channel fuel v b rest c p
            ∙ run,
        in1,
        quiet1,
        out1,
        kept,
      )

module _ {P : Serprim} {h : Handle} {C : Type 0} (L : IsLine P h) where
  -- The last ACK is sent behind the EOT only.
  finish_lem :
      (o : ModemError) (v : RxVars) (s : Session P C)
      → (port : P.Port) × (returned (
            and_then
              (ended_by o v s)
              (λ _. snd {P = P} {C = C} h (ack ∷ []) >> pure modem_no_errors))
          ≡ ok o (record s { port = port }))
        × (L.incoming port ≡ L.incoming s.port)
        × (L.later port ≡ L.later s.port)
        × (L.outgoing port ≡ L.outgoing s.port ++ closing o)
  finish_lem modem_no_errors v s =
      let (p1, sent, in1, out1, quiet1) = snd_ok L (ack ∷ []) s in
      (p1, rw sent refl, in1, quiet1, out1)
  finish_lem _ v s = (s.port, refl, refl, refl, sym (append-nil _))

-- On a line whose reads time out where it pauses, with a channel that has room for the data of the
-- transcript and stores what it is given, a buffer as large as the mode's packet, an `unsigned int`
-- of 16 bits or more and a `size_t` that holds 1024: if what arrives is that of a transcript of the
-- protocol from block 1 on, then with fuel for every answer and for what is dropped behind a packet
-- that was cut short, `xmodem_rx` returns the transcript's code, has stored its data, has sent the
-- request for the mode, the transcript's answers and, if the code is no error, an ACK, and has read
-- nothing further.
pub xmodem_rx-Transcript :
    {P : Serprim} {h : Handle} {C : Type 0} {channel : InputChannel C} (L : IsLine P h)
    (D : Pauses L) (W : IsWriter channel) (f : XferMode) (fuel most : ℕ) (z : Ending)
    (now answers held buffer : List ℕ) (later : List (List ℕ)) (c : C) (p : P.Port)
    → 16 ≤ P.int_bits
    → 1024 < 2 ^ P.size_bits
    → Transcript P.int_bits most z f 1 0 (request f) now later answers held
    → L.incoming p ≡ now
    → L.later p ≡ later
    → 3 + size_of f + trailer_size f ≤ length buffer
    → length answers + most < fuel
    → W.HasRoom (length held) c
    → (s' : Session P C) × (xmodem_rx h channel f fuel (at P buffer c p) ≡ ok z.outcome s')
      × (L.incoming s'.port ≡ z.unread)
      × (L.later s'.port ≡ z.behind)
      × (L.outgoing s'.port ≡ L.outgoing p ++ (request f ∷ (answers ++ closing z.outcome)))
      × (W.stored s'.chan ≡ W.stored c ++ held)
unfolding xmodem_rx
xmodem_rx-Transcript {P} {h} {channel = channel} L D W f fuel most z now answers held buffer later c
      p wide wide' course arrives pauses room enough roomy =
    let code : ℕ = (rx_start P.int_bits f).tx_code in
    let (p1, sent, in1, out1, quiet1) = snd_ok L (code ∷ []) (at P buffer c p) in
    let (v', s2, run, in2, quiet2, out2, kept) =
      whole_loop_lem L D W wide wide' most z f fuel now answers held buffer later c p1 course
        (in1 ∙ arrives) (quiet1 ∙ pauses) room enough roomy in
    let (p3, last, in3, quiet3, out3) = finish_lem L z.outcome v' s2 in
    let asked : L.outgoing p1 ≡ L.outgoing p ++ request f ∷ [] =
      out1 ∙ ap (λ (t : ℕ). L.outgoing p ++ t ∷ []) (rx_start-request P.int_bits f) in
    (
      record s2 { port = p3 },
      rw (sent, run) last,
      in3 ∙ in2,
      quiet3 ∙ quiet2,
      chain (L.outgoing p) (request f ∷ []) (answers ++ closing z.outcome)
          (chain (L.outgoing p1) answers (closing z.outcome) out3 out2 refl) asked refl,
      kept,
    )
