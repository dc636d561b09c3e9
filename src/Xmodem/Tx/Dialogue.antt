-- ===== src/Xmodem/Tx/Dialogue.antt =====
-- What `xmodem_tx` of src/xmodem.c does on a line that also pauses, as a description of its own:
-- for the characters that come, in portions with a pause behind each, the bytes that it sends, and
-- how the transfer ends. A pause lasts longer than the 60 seconds of a wait, and so one is enough.
use libmodem.Modem.{
  eot, ack, nak, can, ModemError, modem_no_errors, sent_can, modem_timeout, XferMode,
}
use libmodem.Prelude.{ℕ, ◌+◌, ◌%◌, ◌^◌, ◌≤◌, ◌<◌, ◌≡◌, ◌≢◌, List, [], ◌∷◌, ◌++◌, length, drop}
use libmodem.Xmodem.Frame.{size_of, settle, framed}
use libmodem.Xmodem.Pauses.{Ending}
use libmodem.Xmodem.Tx.Phases.{request}
pub mod Closing
pub mod Talk
pub mod Transfer
pub mod Every

-- Behind the last packet: an EOT is sent until an ACK or a CAN comes.
pub data Closes (z : Ending) : List ℕ → List (List ℕ) → List ℕ → Type 0 where
  acknowledged :
      {now out : List ℕ} {later : List (List ℕ)}
      → z.outcome ≡ modem_no_errors
      → now ≡ ack ∷ z.unread
      → later ≡ z.behind
      → out ≡ eot ∷ []
      → Closes z now later out
  refused :
      {now out : List ℕ} {later : List (List ℕ)}
      → z.outcome ≡ sent_can
      → now ≡ can ∷ z.unread
      → later ≡ z.behind
      → out ≡ eot ∷ []
      → Closes z now later out
  ignored :
      {now out : List ℕ} {later : List (List ℕ)}
      → z.outcome ≡ modem_timeout
      → now ≡ []
      → later ≡ z.unread ∷ z.behind
      → out ≡ eot ∷ []
      → Closes z now later out
  misheard :
      {now now' out out' : List ℕ} {later : List (List ℕ)} (x : ℕ)
      → (x ≢ ack) × (x ≢ can)
      → Closes z now' later out'
      → now ≡ x ∷ now'
      → out ≡ eot ∷ out'
      → Closes z now later out

-- The packets: in a mode, from a block number on, with this much of the file left.
pub data Talks (w : ℕ) (z : Ending)
    : XferMode → ℕ → List ℕ → List ℕ → List (List ℕ) → List ℕ → Type 0 where
  last_taken :
      {f : XferMode} {n : ℕ} {file now now' out out' : List ℕ} {later : List (List ℕ)}
      → length file < size_of (settle f file)
      → Closes z now' later out'
      → now ≡ ack ∷ now'
      → out ≡ framed w f n file ++ out'
      → Talks w z f n file now later out
  one_taken :
      {f : XferMode} {n : ℕ} {file now now' out out' : List ℕ} {later : List (List ℕ)}
      → size_of (settle f file) ≤ length file
      → Talks w z
          (settle f file)
          ((n + 1) % 2 ^ 8)
          (drop (size_of (settle f file)) file)
          now'
          later
          out'
      → now ≡ ack ∷ now'
      → out ≡ framed w f n file ++ out'
      → Talks w z f n file now later out
  asked_again :
      {f : XferMode} {n : ℕ} {file now now' out out' : List ℕ} {later : List (List ℕ)}
      → Talks w z (settle f file) n file now' later out'
      → now ≡ nak ∷ now'
      → out ≡ framed w f n file ++ out'
      → Talks w z f n file now later out
  broken_off :
      {f : XferMode} {n : ℕ} {file now out : List ℕ} {later : List (List ℕ)} (x : ℕ)
      → (x ≢ ack) × (x ≢ nak)
      → z.outcome ≡ sent_can
      → now ≡ x ∷ z.unread
      → later ≡ z.behind
      → out ≡ framed w f n file
      → Talks w z f n file now later out
  unanswered :
      {f : XferMode} {n : ℕ} {file now out : List ℕ} {later : List (List ℕ)}
      → z.outcome ≡ modem_timeout
      → now ≡ []
      → later ≡ z.unread ∷ z.behind
      → out ≡ framed w f n file
      → Talks w z f n file now later out

-- The whole: characters are passed over until the receiver asks for the mode.
pub data Dialogue (w : ℕ) (z : Ending) (f : XferMode) (file : List ℕ)
    : List ℕ → List (List ℕ) → List ℕ → Type 0 where
  requested :
      {now now' out : List ℕ} {later : List (List ℕ)}
      → Talks w z f 1 file now' later out
      → now ≡ request f ∷ now'
      → Dialogue w z f file now later out
  not_meant :
      {now now' out : List ℕ} {later : List (List ℕ)} (x : ℕ)
      → x ≢ request f
      → Dialogue w z f file now' later out
      → now ≡ x ∷ now'
      → Dialogue w z f file now later out
  not_asked :
      {now out : List ℕ} {later : List (List ℕ)}
      → z.outcome ≡ modem_timeout
      → now ≡ []
      → later ≡ z.unread ∷ z.behind
      → out ≡ []
      → Dialogue w z f file now later out
