-- ===== src/Platform/Dummy/Queue.antt =====
-- The two ports of test/serprim.c that work, as two queues.
use libmodem.Platform.Dummy.{
  static_bufsiz, PortDesc, PortNo, Model, contents, with_contents, with_port, put, get, open_handle,
  port_at, write_data, read_data,
}
use libmodem.Platform.Dummy.Wiring.{
  Direction, forth, back, sender, receiver, line_of, number, Carries, put_behind, get_front,
  port_at-open_handle,
}
use libmodem.Prelude.{
  ℕ, ◌+◌, ◌%◌, ◌^◌, ◌≤◌, ◌<◌, ◌≡◌, refl, sym, ap, ◌∙◌, false, some, List, [], ◌++◌, length, drop,
  arith, append_assoc, length-append, length-drop,
}
use libmodem.Prelude.Int.{ℤ, pos}
use native.Mathlib.Nat.{mod-eq_of_lt, pow-le-pow_right}

-- What a port's new state and a line's new contents leave as it was.
module _ (d : Direction) (m : Model) (p : PortDesc) (xs : List ℕ) where
  abbrev after_write : Model
  after_write = with_port (sender d) p (with_contents (line_of d) xs m)

  abbrev after_read : Model
  after_read = with_port (receiver d) p m

module _ (m : Model) (p : PortDesc) (xs : List ℕ) where
  pub writes_line :
      (d : Direction)
      → (contents (line_of d) (after_write d m p xs) ≡ xs)
        × ((after_write d m p xs).port_model (sender d) ≡ p)
        × ((after_write d m p xs).port_model (receiver d) ≡ m.port_model (receiver d))
  writes_line forth = (refl, refl, refl)
  writes_line back = (refl, refl, refl)

  pub reads_line :
      (d : Direction)
      → (contents (line_of d) (after_read d m p xs) ≡ contents (line_of d) m)
        × ((after_read d m p xs).port_model (receiver d) ≡ p)
        × ((after_read d m p xs).port_model (sender d) ≡ m.port_model (sender d))
  reads_line forth = (refl, refl, refl)
  reads_line back = (refl, refl, refl)

module _ (base size w : ℕ) (h : ℕ) (i : PortNo) (m : Model)
    (found : port_at base size h ≡ some i) where
  -- A write to a port that works.
  write_step :
      (octets : List ℕ) (m' r : Model)
      → (m.port_model i).bad_write ≡ false
      → put (m.port_model i).tx_line (m.port_model i).buf_pos_tx octets m ≡ some m'
      → with_port i
          (record (m.port_model i) {
            buf_pos_tx = ((m.port_model i).buf_pos_tx + length octets) % 2 ^ w;
          })
          m'
        ≡ r
      → write_data base size w h octets m ≡ some (pos 0, r)
  unfolding write_data
  write_step octets m' r works stored e =
      rw (found, works, stored, write_data) (ap (λ t. some (pos 0, t)) e)

  -- A read from a port that works.
  read_step :
      (n : ℕ) (timeout : ℤ) (xs : List ℕ) (r : Model)
      → (m.port_model i).bad_read ≡ false
      → (m.port_model i).force_rx_timeout ≡ false
      → get (m.port_model i).rx_line (m.port_model i).buf_pos_rx n m ≡ some xs
      → with_port i
          (record (m.port_model i) { buf_pos_rx = ((m.port_model i).buf_pos_rx + n) % 2 ^ w })
          m
        ≡ r
      → read_data base size w h n timeout m ≡ some (record { code = pos 0; bytes = xs; port = r })
  unfolding read_data
  read_step n timeout xs r works works' got e =
      rw (found, works, works', got, read_data)
        (ap (λ t. some (record { code = pos 0; bytes = xs; port = t })) e)

module _ (base size w : ℕ) (sized : 0 < size) (wide : 16 ≤ w) (d : Direction) (m : Model)
    (seen sent room : List ℕ) (line : Carries d m seen sent room) where
  -- The positions stay far below the width.
  position : (a k : ℕ) → a + k ≤ static_bufsiz → a + k < 2 ^ w
  position a k h = omega (arith, pow-le-pow_right {n = 2} (omega arith) {i = 16} {j = w} wide)

  inside : length seen + length sent + length room ≡ static_bufsiz
  inside =
      omega (arith, line.whole, length-append {0} seen (sent ++ room), length-append {0} sent room)

  -- Bytes that are written stand behind those that were not yet read.
  pub write_data-Carries :
      (octets : List ℕ)
      → length octets ≤ length room
      → (m' : Model) × (write_data base size w (open_handle base size (number (sender d))) octets m
          ≡ some (pos 0, m'))
        × Carries d m' seen (sent ++ octets) (drop (length octets) room)
  write_data-Carries octets fits =
      let p = m.port_model (sender d) in
      let k : ℕ = length octets in
      let left = drop k room in
      let p' = record p { buf_pos_tx = (p.buf_pos_tx + k) % 2 ^ w } in
      let xs = (seen ++ sent) ++ (octets ++ left) in
      let (holds, sends, keeps) = writes_line m p' xs d in
      let stored =
        put_behind d m (seen ++ sent) octets room p.buf_pos_tx
          (line.holds ∙ sym (append_assoc seen sent room))
          (line.written ∙ sym (length-append {0} seen sent)) fits in
      let same : xs ≡ seen ++ ((sent ++ octets) ++ left) =
        append_assoc seen sent (octets ++ left)
        ∙ ap (λ t. seen ++ t) (sym (append_assoc sent octets left)) in
      (
        after_write d m p' xs,
        write_step base size w (open_handle base size (number (sender d))) (sender d) m
            (port_at-open_handle base size (sender d) sized) octets (with_contents (line_of d) xs m)
            (after_write d m p' xs) line.writes
            (ap (λ t. put t p.buf_pos_tx octets m) line.from ∙ stored) refl,
        record {
          from = ap (λ t. t.tx_line) sends ∙ line.from;
          to = ap (λ t. t.rx_line) keeps ∙ line.to;
          writes = ap (λ t. t.bad_write) sends ∙ line.writes;
          reads = ap (λ t. t.bad_read) keeps ∙ line.reads;
          in_time = ap (λ t. t.force_rx_timeout) keeps ∙ line.in_time;
          holds = holds ∙ same;
          whole = omega (
            arith,
            line.whole,
            length-append {0} seen (sent ++ room),
            length-append {0} sent room,
            length-append {0} seen ((sent ++ octets) ++ left),
            length-append {0} (sent ++ octets) left,
            length-append {0} sent octets,
            length-drop {0} k room,
          );
          written =
              ap (λ t. t.buf_pos_tx) sends
              ∙ mod-eq_of_lt (position p.buf_pos_tx k (omega (arith, line.written, inside)))
              ∙ omega (arith, line.written, length-append {0} sent octets);
          read = ap (λ t. t.buf_pos_rx) keeps ∙ line.read;
        },
      )

  -- A read takes what was sent first.
  pub read_data-Carries :
      (xs rest : List ℕ) (timeout : ℤ)
      → sent ≡ xs ++ rest
      → (m' : Model) × (read_data base size w
            (open_handle base size (number (receiver d)))
            (length xs)
            timeout
            m
          ≡ some (record { code = pos 0; bytes = xs; port = m' }))
        × Carries d m' (seen ++ xs) rest room
  read_data-Carries xs rest timeout parts =
      let p = m.port_model (receiver d) in
      let k : ℕ = length xs in
      let p' = record p { buf_pos_rx = (p.buf_pos_rx + k) % 2 ^ w } in
      let (holds, takes, keeps) = reads_line m p' [] d in
      let split : contents (line_of d) m ≡ seen ++ (xs ++ (rest ++ room)) =
        line.holds
        ∙ ap (λ t. seen ++ (t ++ room)) parts
        ∙ ap (λ t. seen ++ t) (append_assoc xs rest room) in
      let got = get_front d m seen xs (rest ++ room) p.buf_pos_rx k split line.read refl in
      let few : k ≤ length sent = omega (arith, ap (length {0}) parts, length-append {0} xs rest) in
      (
        after_read d m p' [],
        read_step base size w (open_handle base size (number (receiver d))) (receiver d) m
            (port_at-open_handle base size (receiver d) sized) k timeout xs (after_read d m p' [])
            line.reads line.in_time (ap (λ t. get t p.buf_pos_rx k m) line.to ∙ got) refl,
        record {
          from = ap (λ t. t.tx_line) keeps ∙ line.from;
          to = ap (λ t. t.rx_line) takes ∙ line.to;
          writes = ap (λ t. t.bad_write) keeps ∙ line.writes;
          reads = ap (λ t. t.bad_read) takes ∙ line.reads;
          in_time = ap (λ t. t.force_rx_timeout) takes ∙ line.in_time;
          holds = holds ∙ split ∙ sym (append_assoc seen xs (rest ++ room));
          whole = omega (
            arith,
            inside,
            ap (length {0}) parts,
            length-append {0} xs rest,
            length-append {0} (seen ++ xs) (rest ++ room),
            length-append {0} seen xs,
            length-append {0} rest room,
          );
          written =
              ap (λ t. t.buf_pos_tx) keeps
              ∙ omega (
                arith,
                line.written,
                ap (length {0}) parts,
                length-append {0} xs rest,
                length-append {0} seen xs,
              );
          read =
              ap (λ t. t.buf_pos_rx) takes
              ∙ mod-eq_of_lt (position p.buf_pos_rx k (omega (arith, line.read, inside, few)))
              ∙ omega (arith, line.read, length-append {0} seen xs);
        },
      )
