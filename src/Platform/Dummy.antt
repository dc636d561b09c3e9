-- ===== src/Platform/Dummy.antt =====
-- The platform of the unit tests, test/serprim.c and test/shared.h: three ports, of which two share
-- two lines, crossed over. What the code does where it leaves an array or follows NULL is `none`.
pub mod Wiring
pub mod Queue
pub mod Laws
use libmodem.Prelude.{
  ℕ, zero, suc, ◌+◌, ◌*◌, ◌%◌, ◌^◌, Bool, true, false, ◌||◌, Option, none, some, List, [], ◌∷◌,
  length, ◌==◌, leb, if◌then◌else◌, replicate,
}
use libmodem.Prelude.Int.{ℤ, pos, negsuc}
use libmodem.Serial.Primitives.{Reading, TimedReading, Handle}
use libmodem.Xmodem.Session.{slice, overwrite}

abbrev pub static_bufsiz : ℕ
static_bufsiz = 3076

-- The two arrays. `remote_tx_line` and `remote_rx_line` point to them crosswise.
pub data Line : Type 0 where
  local_tx_line local_rx_line : Line

abbrev pub remote_tx_line : Line
remote_tx_line = local_rx_line

abbrev pub remote_rx_line : Line
remote_rx_line = local_tx_line

-- `port_desc_t`. Its lines are NULL until the port is initialised; the flags that are only tested
-- are Booleans.
pub record PortDesc : Type 0 where
  pub tx_line : Option Line
  pub rx_line : Option Line
  pub bad_write : Bool
  pub bad_read : Bool
  pub force_rx_timeout : Bool
  pub bad_close : ℤ
  pub bad_flush : Bool
  pub buf_pos_tx : ℕ
  pub buf_pos_rx : ℕ

-- The elements of `port_model`: LOCAL, REMOTE and BAD_DEVICE.
pub data PortNo : Type 0 where
  local remote bad_device : PortNo

pub record Model : Type 0 where
  pub local_tx : List ℕ
  pub local_rx : List ℕ
  pub port_model : PortNo → PortDesc

abbrev pub contents : Line → Model → List ℕ
contents local_tx_line m = m.local_tx
contents local_rx_line m = m.local_rx

abbrev pub with_contents : Line → List ℕ → Model → Model
with_contents local_tx_line xs m = record m { local_tx = xs }
with_contents local_rx_line xs m = record m { local_rx = xs }

abbrev pub same_port : PortNo → PortNo → Bool
same_port local local = true
same_port remote remote = true
same_port bad_device bad_device = true
same_port _ _ = false

abbrev pub with_port : PortNo → PortDesc → Model → Model
with_port i p m = record m { port_model = λ j. if same_port i j then p else m.port_model j }

-- Stores from an offset of a line on; none without bytes.
unfoldable pub put : Option Line → ℕ → List ℕ → Model → Option Model
put line offset [] m = some m
put none offset (x ∷ xs) m = none
put (some l) offset (x ∷ xs) m = elim (overwrite (contents l m) offset (x ∷ xs)) [
  | none ↦ none
  | some ys ↦ some (with_contents l ys m)
]

unfoldable pub get : Option Line → ℕ → ℕ → Model → Option (List ℕ)
get line offset zero m = some []
get none offset (suc n) m = none
get (some l) offset (suc n) m = slice (contents l m) offset (suc n)

-- The address of the array and the size of its elements.
module _ (base size : ℕ) where
  unfoldable pub open_handle : ℕ → Handle
  open_handle port_no = base + port_no * size

  unfoldable pub handle_valid : Handle → Bool
  handle_valid port = (port == base) || (port == base + size) || (port == base + 2 * size)

  -- The element at an address.
  unfoldable pub port_at : Handle → Option PortNo
  port_at port =
      if port == base
      then some local
      else if port == base + size
      then some remote
      else if port == base + 2 * size
      then some bad_device
      else none

  -- The assignments behind the two for the lines.
  abbrev pub reset : Option Line → Option Line → PortDesc → PortDesc
  reset tx rx p = record p {
    tx_line = tx;
    rx_line = rx;
    bad_write = false;
    bad_read = false;
    force_rx_timeout = false;
    buf_pos_tx = 0;
    buf_pos_rx = 0;
  }

  unfoldable pub init_port : Handle → ℕ → Model → ℤ × Model
  init_port port baud_rate m =
      if port == base
      then (
        pos 0,
        with_port local (reset (some local_tx_line) (some local_rx_line) (m.port_model local)) m,
      )
      else if port == base + size
      then (
        pos 0,
        with_port remote (reset (some remote_tx_line) (some remote_rx_line) (m.port_model remote))
            m,
      )
      else (negsuc 0, m)

  -- Nothing calls it.
  unfoldable pub valid_size : ℕ → Bool
  valid_size num_bytes = leb num_bytes static_bufsiz

  unfoldable pub close_handle : Handle → Model → Option ℤ
  close_handle port m = elim (port_at port) [
    | none ↦ none
    | some i ↦ some (m.port_model i).bad_close
  ]

  unfoldable pub flush_device : Handle → Model → Option (ℤ × Model)
  unfolding put
  flush_device port m = elim (port_at port) [
    | none ↦ none
    | some i ↦
        let p = m.port_model i in
        if p.bad_flush
        then some (negsuc 0, m)
        else elim (put p.rx_line 0 (replicate static_bufsiz 0) m) [
          | none ↦ none
          | some m' ↦ some (pos 0, with_port i (record p { buf_pos_rx = 0 }) m')
        ]
  ]

  -- The width of `unsigned int`.
  module _ (w : ℕ) where
    unfoldable pub write_data : Handle → List ℕ → Model → Option (ℤ × Model)
    unfolding put
    write_data port octets m = elim (port_at port) [
      | none ↦ none
      | some i ↦
          let p = m.port_model i in
          if p.bad_write then some (negsuc 0, m) else elim (put p.tx_line p.buf_pos_tx octets m) [
            | none ↦ none
            | some m' ↦ some (
              pos 0,
              with_port i (record p { buf_pos_tx = (p.buf_pos_tx + length octets) % 2 ^ w }) m',
            )
          ]
    ]

    unfoldable pub read_data : Handle → ℕ → ℤ → Model → Option (Reading Model)
    unfolding get
    read_data port num_bytes timeout m = elim (port_at port) [
      | none ↦ none
      | some i ↦
          let p = m.port_model i in
          if p.bad_read
          then some (record { code = negsuc 1; bytes = []; port = m })
          else if p.force_rx_timeout
          then some (record { code = negsuc 0; bytes = []; port = m })
          else elim (get p.rx_line p.buf_pos_rx num_bytes m) [
            | none ↦ none
            | some octets ↦ some (record {
              code = pos 0;
              bytes = octets;
              port = with_port i (record p { buf_pos_rx = (p.buf_pos_rx + num_bytes) % 2 ^ w }) m;
            })
          ]
    ]

    -- `elapsed` is the result of `difftime` as an `int`.
    unfoldable pub read_data_get_elapsed_time :
        Handle → ℕ → ℤ → ℤ → Model → Option (TimedReading Model)
    unfolding read_data
    read_data_get_elapsed_time port num_bytes timeout elapsed m =
        elim (read_data port num_bytes timeout m) [
          | none ↦ none
          | some r ↦
              some (record { code = r.code; bytes = r.bytes; elapsed = elapsed; port = r.port })
        ]
