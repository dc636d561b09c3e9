-- ===== src/Xmodem/Rx/Transcript.antt =====
-- What `xmodem_rx` of src/xmodem.c does on a line that also pauses, as a description of its own:
-- for what arrives, in portions with a pause behind each, the characters that it sends, the data
-- that it stores, and how the transfer ends.
use libmodem.Modem.{
  eot, ack, nak, can, ModemError, modem_no_errors, packet_mismatch, modem_timeout, XferMode, xmodem,
  xmodem_crc,
}
use libmodem.Prelude.{
  ℕ, suc, ◌+◌, ◌-◌, ◌%◌, ◌^◌, ◌≤◌, ◌<◌, ◌≡◌, ◌≢◌, ◌⊎◌, Bool, List, [], ◌∷◌, ◌++◌, All, length,
}
use libmodem.Xmodem.Frame.{start_of, size_of, trailer_size, trailer}
use libmodem.Xmodem.Pauses.{Ending}
use libmodem.Xmodem.Rx.Course.{packet_mode, packet, patience, IsIdle}
pub mod Waits
pub mod Packets
pub mod Outcome
pub mod Rounds
pub mod Runs
pub mod Transfer
pub mod Lines

-- In a mode, with a block number expected, so many waits in vain since the last good packet, and
-- the character that asks for a packet after a pause: what arrives before the next pause and behind
-- each later one, the answers, and the data. `most` bounds what comes behind a packet that is cut
-- short.
pub data Transcript (w most : ℕ) (z : Ending)
    : XferMode → ℕ → ℕ → ℕ → List ℕ → List (List ℕ) → List ℕ → List ℕ → Type 0 where
  -- The EOT.
  finished :
      {f : XferMode} {n tries tx : ℕ} {now answers stored : List ℕ} {later : List (List ℕ)}
      → tries ≤ patience f
      → z.outcome ≡ modem_no_errors
      → now ≡ eot ∷ z.unread
      → later ≡ z.behind
      → answers ≡ []
      → stored ≡ []
      → Transcript w most z f n tries tx now later answers stored
  -- The twelfth wait in vain in a row was the last.
  gave_up :
      {f : XferMode} {n tries tx : ℕ} {now answers stored : List ℕ} {later : List (List ℕ)}
      → tries ≡ 12
      → z.outcome ≡ modem_timeout
      → now ≡ z.unread
      → later ≡ z.behind
      → answers ≡ can ∷ []
      → stored ≡ []
      → Transcript w most z f n tries tx now later answers stored
  -- A packet with neither number right.
  out_of_step :
      {f : XferMode} {n tries tx : ℕ} {now answers stored : List ℕ} {later : List (List ℕ)}
      (small : Bool) (number comp : ℕ) (body : List ℕ)
      → tries ≤ patience f
      → length body ≡ size_of (packet_mode f small) + trailer_size (packet_mode f small)
      → number ≢ n
      → comp ≢ 255 - n
      → z.outcome ≡ packet_mismatch
      → now ≡ start_of (packet_mode f small) ∷ number ∷ comp ∷ (body ++ z.unread)
      → later ≡ z.behind
      → answers ≡ can ∷ []
      → stored ≡ []
      → Transcript w most z f n tries tx now later answers stored
  -- XMODEM-CRC becomes XMODEM.
  downgrade :
      {f : XferMode} {n tries tx : ℕ} {now answers stored : List ℕ} {later : List (List ℕ)}
      → f ≡ xmodem_crc
      → 2 < tries
      → tries ≤ 11
      → Transcript w most z xmodem n tries nak now later answers stored
      → Transcript w most z f n tries tx now later answers stored
  -- Nothing comes in time: the packet is asked for again.
  paused :
      {f : XferMode} {n tries tx : ℕ} {now next answers answers' stored : List ℕ}
      {later later' : List (List ℕ)}
      → tries ≤ patience f
      → Transcript w most z f n (suc tries) tx next later' answers' stored
      → now ≡ []
      → later ≡ next ∷ later'
      → answers ≡ tx ∷ answers'
      → Transcript w most z f n tries tx now later answers stored
  stray :
      {f : XferMode} {n tries tx : ℕ} {now now' answers stored : List ℕ} {later : List (List ℕ)}
      (x : ℕ)
      → tries ≤ patience f
      → IsIdle f x
      → Transcript w most z f n (suc tries) tx now' later answers stored
      → now ≡ x ∷ now'
      → Transcript w most z f n tries tx now later answers stored
  -- A packet that stops in the middle: what comes behind it is dropped up to the next pause.
  cut_short :
      {f : XferMode} {n tries tx : ℕ} {now next answers answers' stored : List ℕ}
      {later later' : List (List ℕ)} (small : Bool) (part junk : List ℕ)
      → tries ≤ patience f
      → length part < 2 + size_of (packet_mode f small) + trailer_size (packet_mode f small)
      → length junk < most
      → Transcript w most z f n (suc tries) nak next later' answers' stored
      → now ≡ start_of (packet_mode f small) ∷ part
      → later ≡ junk ∷ next ∷ later'
      → answers ≡ nak ∷ answers'
      → Transcript w most z f n tries tx now later answers stored
  taken :
      {f : XferMode} {n tries tx : ℕ} {now now' answers answers' stored stored' : List ℕ}
      {later : List (List ℕ)} (small : Bool) (number comp : ℕ) (block : List ℕ)
      → tries ≤ patience f
      → length block ≡ size_of (packet_mode f small)
      → (number ≡ n) ⊎ (comp ≡ 255 - n)
      → Transcript w most z f ((n + 1) % 2 ^ 8) 0 nak now' later answers' stored'
      → now
        ≡ packet (packet_mode f small) number comp block (trailer w (packet_mode f small) block)
          ++ now'
      → answers ≡ ack ∷ answers'
      → stored ≡ block ++ stored'
      → Transcript w most z f n tries tx now later answers stored
  refused :
      {f : XferMode} {n tries tx : ℕ} {now now' answers answers' stored : List ℕ}
      {later : List (List ℕ)} (small : Bool) (number comp : ℕ) (block tag : List ℕ)
      → tries ≤ patience f
      → length block ≡ size_of (packet_mode f small)
      → length tag ≡ trailer_size (packet_mode f small)
      → All (λ x. x < 256) tag
      → tag ≢ trailer w (packet_mode f small) block
      → (number ≡ n) ⊎ (comp ≡ 255 - n)
      → Transcript w most z f n (suc tries) nak now' later answers' stored
      → now ≡ packet (packet_mode f small) number comp block tag ++ now'
      → answers ≡ nak ∷ answers'
      → Transcript w most z f n tries tx now later answers stored
