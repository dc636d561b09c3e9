-- ===== src/Platform/Dummy/Laws.antt =====
-- What the ports of test/serprim.c do, from their initialisation to a flush.
use libmodem.Platform.Dummy.{
  static_bufsiz, local_tx_line, local_rx_line, PortDesc, PortNo, local, remote, remote_tx_line,
  remote_rx_line, reset, Model, contents, with_contents, with_port, put, open_handle, port_at,
  init_port, write_data, read_data, flush_device,
}
use libmodem.Platform.Dummy.Queue.{write_data-Carries, read_data-Carries}
use libmodem.Platform.Dummy.Wiring.{
  Direction, forth, back, sender, receiver, line_of, number, Carries, put_behind,
  port_at-open_handle,
}
use libmodem.Prelude.{
  ℕ, zero, suc, ◌+◌, ◌-◌, ◌*◌, ◌≤◌, ◌<◌, ◌≡◌, refl, sym, ap, ◌∙◌, true, false, some, List, [], ◌∷◌,
  ◌++◌, length, drop, ◌==◌, arith, append-nil, length-append, length-drop, replicate,
  length-replicate,
}
use libmodem.Prelude.Int.{ℤ, pos, negsuc}

-- On a line that works, with an `unsigned int` of 16 bits or more: what is written, if the array
-- has room for it, can be read from the other port, behind what was not yet read, and the line
-- works on.
pub read_data-write_data :
    (base size w : ℕ) (d : Direction) (m : Model) (seen sent room octets : List ℕ) (timeout : ℤ)
    → 0 < size
    → 16 ≤ w
    → Carries d m seen sent room
    → length octets ≤ length room
    → (m' m'' : Model) × (write_data base size w
          (open_handle base size (number (sender d)))
          octets
          m
        ≡ some (pos 0, m'))
      × (read_data base size w
            (open_handle base size (number (receiver d)))
            (length (sent ++ octets))
            timeout
            m'
          ≡ some (record { code = pos 0; bytes = sent ++ octets; port = m'' }))
      × Carries d m'' (seen ++ (sent ++ octets)) [] (drop (length octets) room)
read_data-write_data base size w d m seen sent room octets timeout sized wide line fits =
    let left = drop (length octets) room in
    let (m', writes, line') =
      write_data-Carries base size w sized wide d m seen sent room line octets fits in
    let (m'', reads, line'') =
      read_data-Carries base size w sized wide d m' seen (sent ++ octets) left line'
        (sent ++ octets) [] timeout (sym (append-nil _)) in
    (m', m'', writes, reads, line'')

equal_test : (a b : ℕ) → a ≡ b → (a == b) ≡ true
equal_test a b h = ground arith

unequal_test : (a b : ℕ) → b < a → (a == b) ≡ false
unequal_test a b h = ground arith

module _ (base size baud_rate : ℕ) (m : Model) (sized : 0 < size) where
  init_local : init_port base size (open_handle base size 0) baud_rate m ≡ (
    pos 0,
    with_port local
        (reset base size (some local_tx_line) (some local_rx_line) (m.port_model local))
        m,
  )
  unfolding init_port open_handle
  init_local = rw (equal_test (base + 0 * size) base (omega arith)) refl

  init_remote : init_port base size (open_handle base size 1) baud_rate m ≡ (
    pos 0,
    with_port remote
        (reset base size (some remote_tx_line) (some remote_rx_line) (m.port_model remote))
        m,
  )
  unfolding init_port open_handle
  init_remote =
      rw
        (
          unequal_test (base + 1 * size) base (omega arith),
          equal_test (base + 1 * size) (base + size) (omega arith),
        )
        refl

  init_bad_device : init_port base size (open_handle base size 2) baud_rate m ≡ (negsuc 0, m)
  unfolding init_port open_handle
  init_bad_device =
      rw
        (
          unequal_test (base + 2 * size) base (omega arith),
          unequal_test (base + 2 * size) (base + size) (omega arith),
        )
        refl

-- From arrays of their size, and whatever the ports were before: initialising the local and the
-- remote port returns 0, and then the lines work in both directions with nothing on them; the
-- device that is broken is refused and nothing changes.
pub init_port-Carries :
    (base size baud_rate : ℕ) (m : Model)
    → 0 < size
    → length m.local_tx ≡ static_bufsiz
    → length m.local_rx ≡ static_bufsiz
    → let first = init_port base size (open_handle base size 0) baud_rate m in
      let second = init_port base size (open_handle base size 1) baud_rate first.1 in
      (first.0 ≡ pos 0)
      × (second.0 ≡ pos 0)
      × Carries forth second.1 [] [] m.local_tx
      × Carries back second.1 [] [] m.local_rx
      × (init_port base size (open_handle base size 2) baud_rate m ≡ (negsuc 0, m))
init_port-Carries base size baud_rate m sized whole whole' =
    let m1 =
      with_port local
        (reset base size (some local_tx_line) (some local_rx_line) (m.port_model local)) m in
    rw
      (
        init_local base size baud_rate m sized,
        init_remote base size baud_rate m1 sized,
        init_bad_device base size baud_rate m sized,
      )
      (
        refl,
        refl,
        record {
          from = refl;
          to = refl;
          writes = refl;
          reads = refl;
          in_time = refl;
          holds = refl;
          whole = whole;
          written = refl;
          read = refl;
        },
        record {
          from = refl;
          to = refl;
          writes = refl;
          reads = refl;
          in_time = refl;
          holds = refl;
          whole = whole';
          written = refl;
          read = refl;
        },
        refl,
      )

replicate_add : (a b x : ℕ) → replicate (a + b) x ≡ replicate a x ++ replicate b x
replicate_add zero b x = ap (λ (t : ℕ). replicate t x) (omega arith)
replicate_add (suc a) b x =
    let next : suc a + b ≡ suc (a + b) = omega arith in
    ap (λ (t : ℕ). replicate t x) next ∙ ap (λ t. x ∷ t) (replicate_add a b x)

nothing_left : (xs : List ℕ) → length xs ≡ 0 → xs ≡ []
nothing_left [] h = refl
nothing_left (x ∷ xs) h = absurd (omega arith)

-- A flush of a port that works.
flush_step :
    (base size h : ℕ) (i : PortNo) (m m' r : Model)
    → port_at base size h ≡ some i
    → (m.port_model i).bad_flush ≡ false
    → put (m.port_model i).rx_line 0 (replicate static_bufsiz 0) m ≡ some m'
    → with_port i (record (m.port_model i) { buf_pos_rx = 0 }) m' ≡ r
    → flush_device base size h m ≡ some (pos 0, r)
unfolding flush_device
flush_step base size h i m m' r found works stored e =
    rw (found, works, stored, flush_device) (ap (λ t. some (pos 0, t)) e)

flushes_line :
    (m : Model) (p : PortDesc) (xs : List ℕ) (d : Direction)
    → let m' = with_port (receiver d) p (with_contents (line_of d) xs m) in
      (contents (line_of d) m' ≡ xs)
      × (m'.port_model (receiver d) ≡ p)
      × (m'.port_model (sender d) ≡ m.port_model (sender d))
flushes_line m p xs forth = (refl, refl, refl)
flushes_line m p xs back = (refl, refl, refl)

-- On a line that works, a flush by the receiver returns 0, but the sender goes on behind what it
-- has sent before: as much as was ever sent comes to the receiver as zeros, before what is sent
-- next.
pub flush_device-Carries :
    (base size : ℕ) (d : Direction) (m : Model) (seen sent room : List ℕ)
    → 0 < size
    → (m.port_model (receiver d)).bad_flush ≡ false
    → Carries d m seen sent room
    → (m' : Model) × (flush_device base size (open_handle base size (number (receiver d))) m
        ≡ some (pos 0, m'))
      × Carries d m' []
          (replicate (length seen + length sent) 0)
          (replicate (static_bufsiz - (length seen + length sent)) 0)
flush_device-Carries base size d m seen sent room sized good line =
    let p = m.port_model (receiver d) in
    let k : ℕ = length seen + length sent in
    let zeros : List ℕ = replicate static_bufsiz 0 in
    let long : length zeros ≡ static_bufsiz = length-replicate {0} {A = ℕ} static_bufsiz 0 in
    let xs = seen ++ (sent ++ room) in
    let within : k ≤ static_bufsiz =
      omega
        (arith, line.whole, length-append {0} seen (sent ++ room), length-append {0} sent room) in
    let over : zeros ++ drop (length zeros) xs ≡ zeros =
      ap (λ t. zeros ++ t)
        (nothing_left (drop (length zeros) xs)
          (omega (arith, line.whole, long, length-drop {0} (length zeros) xs)))
      ∙ append-nil zeros in
    let stored : put p.rx_line 0 zeros m ≡ some (with_contents (line_of d) zeros m) =
      ap (λ t. put t 0 zeros m) line.to
      ∙ put_behind d m [] zeros xs 0 line.holds refl (omega (arith, line.whole, long))
      ∙ ap (λ t. some (with_contents (line_of d) t m)) over in
    let p' = record p { buf_pos_rx = 0 } in
    let m' = with_port (receiver d) p' (with_contents (line_of d) zeros m) in
    let (holds, flushed, keeps) = flushes_line m p' zeros d in
    let split : static_bufsiz ≡ k + (static_bufsiz - k) = omega (arith, within) in
    let parts : zeros ≡ replicate k 0 ++ replicate (static_bufsiz - k) 0 =
      ap (λ (t : ℕ). replicate t 0) split ∙ replicate_add k (static_bufsiz - k) 0 in
    (
      m',
      flush_step base size (open_handle base size (number (receiver d))) (receiver d) m
          (with_contents (line_of d) zeros m) m' (port_at-open_handle base size (receiver d) sized)
          good stored refl,
      record {
        from = ap (λ t. t.tx_line) keeps ∙ line.from;
        to = ap (λ t. t.rx_line) flushed ∙ line.to;
        writes = ap (λ t. t.bad_write) keeps ∙ line.writes;
        reads = ap (λ t. t.bad_read) flushed ∙ line.reads;
        in_time = ap (λ t. t.force_rx_timeout) flushed ∙ line.in_time;
        holds = holds ∙ parts;
        whole = ap (length {0}) (sym parts) ∙ long;
        written =
            ap (λ t. t.buf_pos_tx) keeps
            ∙ omega (arith, line.written, length-replicate {0} {A = ℕ} k 0);
        read = ap (λ t. t.buf_pos_rx) flushed;
      },
    )
