-- ===== src/Platform/Dummy/Wiring.antt =====
-- The two directions between the ports of test/serprim.c that work, and what it is for one to work.
use libmodem.Platform.Dummy.{
  static_bufsiz, Line, local_tx_line, local_rx_line, PortNo, local, remote, bad_device, Model,
  contents, with_contents, put, get, open_handle, port_at,
}
use libmodem.Prelude.{
  ℕ, zero, suc, ◌+◌, ◌*◌, ◌≤◌, ◌<◌, ◌≡◌, ◌≢◌, refl, sym, ap, ◌∙◌, true, false, some, List, [], ◌∷◌,
  ◌++◌, length, take, drop, ◌==◌, arith, length-take, take-append-drop,
}
use libmodem.Xmodem.Session.{overwrite}
use libmodem.Xmodem.Buffer.{slice-append, overwrite-append}

-- From the local port to the remote one, and back.
pub data Direction : Type 0 where
  forth back : Direction

abbrev pub sender : Direction → PortNo
sender forth = local
sender back = remote

abbrev pub receiver : Direction → PortNo
receiver forth = remote
receiver back = local

abbrev pub line_of : Direction → Line
line_of forth = local_tx_line
line_of back = local_rx_line

abbrev pub number : PortNo → ℕ
number local = 0
number remote = 1
number bad_device = 2

equal_test : (a b : ℕ) → a ≡ b → (a == b) ≡ true
equal_test a b h = ground arith

unequal_test : (a b : ℕ) → a ≢ b → (a == b) ≡ false
unequal_test a b h = ground arith

-- A handle from `open_handle` leads to the port that was opened.
pub port_at-open_handle :
    (base size : ℕ) (i : PortNo)
    → 0 < size
    → port_at base size (open_handle base size (number i)) ≡ some i
unfolding port_at open_handle
port_at-open_handle base size local h = rw (equal_test (base + 0 * size) base (omega arith))
port_at-open_handle base size remote h = rw (
  unequal_test (base + 1 * size) base (λ e. omega arith),
  equal_test (base + 1 * size) (base + size) (omega arith),
)
port_at-open_handle base size bad_device h = rw (
  unequal_test (base + 2 * size) base (λ e. omega arith),
  unequal_test (base + 2 * size) (base + size) (λ e. omega arith),
  equal_test (base + 2 * size) (base + 2 * size) refl,
)

-- A line that works in a direction: what the receiver has read, what it has not yet read, and what
-- is behind that in the array.
pub record Carries (d : Direction) (m : Model) (seen sent room : List ℕ) : Type 0 where
  pub from : (m.port_model (sender d)).tx_line ≡ some (line_of d)
  pub to : (m.port_model (receiver d)).rx_line ≡ some (line_of d)
  pub writes : (m.port_model (sender d)).bad_write ≡ false
  pub reads : (m.port_model (receiver d)).bad_read ≡ false
  pub in_time : (m.port_model (receiver d)).force_rx_timeout ≡ false
  pub holds : contents (line_of d) m ≡ seen ++ (sent ++ room)
  pub whole : length (seen ++ (sent ++ room)) ≡ static_bufsiz
  pub written : (m.port_model (sender d)).buf_pos_tx ≡ length seen + length sent
  pub read : (m.port_model (receiver d)).buf_pos_rx ≡ length seen

-- Bytes go behind those that were sent.
pub put_behind :
    (d : Direction) (m : Model) (front octets room : List ℕ) (offset : ℕ)
    → contents (line_of d) m ≡ front ++ room
    → offset ≡ length front
    → length octets ≤ length room
    → put (some (line_of d)) offset octets m
      ≡ some (with_contents (line_of d) (front ++ (octets ++ drop (length octets) room)) m)
unfolding put
put_behind forth m front [] room offset holds at_end fits =
    ap (λ (t : List ℕ). some (record m { local_tx = t })) holds
put_behind back m front [] room offset holds at_end fits =
    ap (λ (t : List ℕ). some (record m { local_rx = t })) holds
put_behind d m front (x ∷ octets) room offset holds at_end fits =
    let k : ℕ = length (x ∷ octets) in
    let split : contents (line_of d) m ≡ front ++ (take k room ++ drop k room) =
      holds ∙ ap (λ t. front ++ t) (sym (take-append-drop k room)) in
    let stored =
      overwrite-append front (take k room) (drop k room) (x ∷ octets) offset at_end
        (omega (arith, length-take {0} k room)) in
    rw (ap (λ t. overwrite t offset (x ∷ octets)) split ∙ stored, put) refl

pub get_front :
    (d : Direction) (m : Model) (seen xs rest : List ℕ) (offset n : ℕ)
    → contents (line_of d) m ≡ seen ++ (xs ++ rest)
    → offset ≡ length seen
    → n ≡ length xs
    → get (some (line_of d)) offset n m ≡ some xs
unfolding get
get_front d m seen [] rest offset zero holds at_start e = refl
get_front d m seen (x ∷ xs) rest offset zero holds at_start e = absurd (omega arith)
get_front d m seen [] rest offset (suc n) holds at_start e = absurd (omega arith)
get_front d m seen (x ∷ xs) rest offset (suc n) holds at_start e =
    rw (holds, slice-append seen (x ∷ xs) rest offset (suc n) at_start e) refl
