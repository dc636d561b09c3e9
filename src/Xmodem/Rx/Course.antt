-- ===== src/Xmodem/Rx/Course.antt =====
-- The receiver's side of the protocol, for `xmodem_rx` of src/xmodem.c: what may arrive, and what
-- the receiver answers and stores.
use libmodem.Modem.{eot, soh, ack, nak, XferMode, xmodem_crc, is_xmodem_crc, is_xmodem_1k}
use libmodem.Prelude.{
  ℕ, suc, ◌+◌, ◌-◌, ◌%◌, ◌^◌, ◌≤◌, ◌<◌, ◌≡◌, ◌≢◌, ◌⊎◌, Bool, ◌&&◌, List, [], ◌∷◌, ◌++◌, All, length,
  if◌then◌else◌,
}
use libmodem.Xmodem.Frame.{start_of, size_of, trailer_size, trailer}

-- In XMODEM-1K a packet is large or small; a small one is like those of XMODEM-CRC.
abbrev pub packet_mode : XferMode → Bool → XferMode
packet_mode f small = if is_xmodem_1k f && small then xmodem_crc else f

-- How often in a row the wait for a packet may begin again, with the first time as 0, before
-- XMODEM-CRC falls back to XMODEM or the transfer ends.
abbrev pub patience : XferMode → ℕ
patience f = if is_xmodem_crc f then 2 else 11

-- A character between packets that the receiver passes over.
abbrev pub IsIdle : XferMode → ℕ → Type 0
IsIdle f x = (x ≢ soh) × (x ≢ start_of f) × (x ≢ eot)

abbrev pub packet : XferMode → ℕ → ℕ → List ℕ → List ℕ → List ℕ
packet g number comp block tag = start_of g ∷ number ∷ comp ∷ (block ++ tag)

-- In a mode, with a block number expected and so many waits in vain since the last good packet:
-- what arrives, what is answered to packets, and the data that is stored.
pub data Receives (w : ℕ) : XferMode → ℕ → ℕ → List ℕ → List ℕ → List ℕ → Type 0 where
  ended :
      {f : XferMode} {n tries : ℕ} {inc answers stored : List ℕ}
      → tries ≤ patience f
      → inc ≡ eot ∷ []
      → answers ≡ []
      → stored ≡ []
      → Receives w f n tries inc answers stored
  noise :
      {f : XferMode} {n tries : ℕ} {inc answers stored inc' : List ℕ} (x : ℕ)
      → tries ≤ patience f
      → (x ≢ soh) × (x ≢ start_of f) × (x ≢ eot)
      → Receives w f n (suc tries) inc' answers stored
      → inc ≡ x ∷ inc'
      → Receives w f n tries inc answers stored
  accepted :
      {f : XferMode} {n tries : ℕ} {inc answers stored inc' answers' stored' : List ℕ}
      (small : Bool) (number comp : ℕ) (block : List ℕ)
      → tries ≤ patience f
      → length block ≡ size_of (packet_mode f small)
      → (number ≡ n) ⊎ (comp ≡ 255 - n)
      → Receives w f ((n + 1) % 2 ^ 8) 0 inc' answers' stored'
      → inc
        ≡ packet (packet_mode f small) number comp block (trailer w (packet_mode f small) block)
          ++ inc'
      → answers ≡ ack ∷ answers'
      → stored ≡ block ++ stored'
      → Receives w f n tries inc answers stored
  rejected :
      {f : XferMode} {n tries : ℕ} {inc answers stored inc' answers' : List ℕ} (small : Bool)
      (number comp : ℕ) (block tag : List ℕ)
      → tries ≤ patience f
      → length block ≡ size_of (packet_mode f small)
      → length tag ≡ trailer_size (packet_mode f small)
      → All (λ x. x < 256) tag
      → tag ≢ trailer w (packet_mode f small) block
      → (number ≡ n) ⊎ (comp ≡ 255 - n)
      → Receives w f n (suc tries) inc' answers' stored
      → inc ≡ packet (packet_mode f small) number comp block tag ++ inc'
      → answers ≡ nak ∷ answers'
      → Receives w f n tries inc answers stored
