-- ===== src/Xmodem/Frame.antt =====
-- The packets of the protocol, as the sender and the receiver must agree on them.
use libmodem.Bits.{bit_and_byte, bit_and-shift}
use libmodem.Crc.{generate_chksum, generate_crc}
use libmodem.Modem.{
  soh, stx, cpmeof, data_start, XferMode, xmodem, xmodem_crc, xmodem_1k, is_xmodem_1k, is_xmodem,
}
use libmodem.Prelude.{
  ℕ, ◌+◌, ◌-◌, ◌/◌, ◌%◌, ◌^◌, ◌<◌, ◌≡◌, refl, ap₂, Bool, ◌&&◌, List, [], ◌∷◌, ◌++◌, length, take,
  ltb, if◌then◌else◌, replicate, arith, length-append, length-replicate, length-take, bit_and, ◌*◌,
}
use libmodem.Xmodem.Tx.{TxVars, crc_bytes}

abbrev pub start_of : XferMode → ℕ
start_of flags = if is_xmodem_1k flags then stx else soh

abbrev pub size_of : XferMode → ℕ
size_of flags = if is_xmodem_1k flags then 1024 else 128

abbrev pub trailer_size : XferMode → ℕ
trailer_size flags = if is_xmodem flags then 1 else 2

abbrev pub trailer : ℕ → XferMode → List ℕ → List ℕ
trailer w flags block =
    if is_xmodem flags
    then generate_chksum block ∷ []
    else (generate_crc w block / 256) ∷ (generate_crc w block % 256) ∷ []

-- Start, number, complement, data, checksum or CRC with its high byte first.
abbrev pub frame : ℕ → XferMode → ℕ → List ℕ → List ℕ
frame w flags n block = start_of flags ∷ n ∷ (255 - n) ∷ (block ++ trailer w flags block)

-- The next block of a file, filled up with CPMEOF.
unfoldable pub block_of : ℕ → List ℕ → List ℕ
block_of size file = take size file ++ replicate (size - length (take size file)) cpmeof

-- Less than 1024 bytes go in packets of 128.
abbrev pub settle : XferMode → List ℕ → XferMode
settle flags file = if is_xmodem_1k flags && ltb (length file) 1024 then xmodem_crc else flags

-- The block that the transmitter sends next, and what it sends for it.
abbrev pub next_of : XferMode → List ℕ → List ℕ
next_of g file = block_of (size_of (settle g file)) file

abbrev pub framed : ℕ → XferMode → ℕ → List ℕ → List ℕ
framed w g n file = frame w (settle g file) n (next_of g file)

abbrev pub checked : ℕ → XferMode → List ℕ → List ℕ
checked w g file = next_of g file ++ trailer w (settle g file) (next_of g file)

pub length-block_of : (size : ℕ) (file : List ℕ) → length (block_of size file) ≡ size
unfolding block_of
length-block_of size file = omega (
  arith,
  length-append {0} (take size file) (replicate (size - length (take size file)) cpmeof),
  length-replicate {0} (size - length (take size file)) cpmeof,
  length-take {0} size file,
)

pub length-trailer :
    (w : ℕ) (flags : XferMode) (block : List ℕ)
    → length (trailer w flags block) ≡ trailer_size flags
length-trailer w xmodem block = refl
length-trailer w xmodem_crc block = refl
length-trailer w xmodem_1k block = refl

-- The masks of `xmodem_tx` take the CRC apart.
pub crc_bytes_lem : (c : ℕ) → c < 2 ^ 16 → crc_bytes c ≡ (c / 256) ∷ (c % 256) ∷ []
unfolding crc_bytes
crc_bytes_lem c h =
    ap₂ (λ x y. x ∷ y ∷ []) (omega (arith, high_mask c, bit_and_byte (c / 256)))
      (omega (arith, bit_and_byte c))
  where
    high_mask : (x : ℕ) → bit_and x 0xFF00 ≡ bit_and (x / 256) 0xFF * 256
    high_mask x = bit_and-shift 8 x 0xFF

-- The variables of `xmodem_tx` in a mode.
abbrev pub vars : XferMode → ℕ → Bool → ℕ → TxVars
vars flags last eof code = record {
  flags = flags;
  chksum_offset = data_start + size_of flags;
  block_size = size_of flags;
  packet_size = data_start + size_of flags + trailer_size flags;
  last_sent_size = last;
  eof_detected = eof;
  rx_code = code;
}
