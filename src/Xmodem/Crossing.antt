-- ===== src/Xmodem/Crossing.antt =====
-- A line between `xmodem_tx` and `xmodem_rx` of src/xmodem.c that changes what it carries, and the
-- answers by which the two ends get a file across it.
use libmodem.Modem.{eot, soh, ack, nak, XferMode}
use libmodem.Prelude.{
  ℕ, suc, ◌+◌, ◌-◌, ◌%◌, ◌^◌, ◌≤◌, ◌<◌, ◌≡◌, ◌≢◌, ◌⊎◌, List, [], ◌∷◌, ◌++◌, All, length, drop,
}
use libmodem.Xmodem.Crossing.Damage.{Damages}
use libmodem.Xmodem.Frame.{start_of, size_of, settle, framed, checked}
use libmodem.Xmodem.Rx.Course.{packet, patience, IsIdle}
pub mod Damage
pub mod Courses

-- For the receiver's mode and the transmitter's: a block number, the receiver's waits in vain since
-- the last good packet, and the part of the file that is left; the receiver's answers, what the
-- transmitter sends, and what arrives for it. The line may change one of a packet's two numbers,
-- it may damage the data and the check bytes, which costs a repetition, and it may put in
-- characters between packets and before the EOT, as long as the receiver is patient.
pub data Crosses (w : ℕ) (f : XferMode)
    : XferMode → ℕ → ℕ → List ℕ → List ℕ → List ℕ → List ℕ → Type 0 where
  final :
      {g : XferMode} {n tries : ℕ} {file answers out inc : List ℕ} (number comp : ℕ)
      (strays : List ℕ)
      → tries ≤ patience f
      → length file < size_of (settle g file)
      → (number ≡ n) ⊎ (comp ≡ 255 - n)
      → All (IsIdle f) strays
      → length strays ≤ patience f
      → answers ≡ ack ∷ []
      → out ≡ framed w g n file
      → inc ≡ start_of (settle g file) ∷ number ∷ comp ∷ (checked w g file ++ (strays ++ eot ∷ []))
      → Crosses w f g n tries file answers out inc
  intact :
      {g : XferMode} {n tries : ℕ} {file answers out inc answers' out' inc' : List ℕ}
      (number comp : ℕ)
      → tries ≤ patience f
      → size_of (settle g file) ≤ length file
      → (number ≡ n) ⊎ (comp ≡ 255 - n)
      → Crosses w f
          (settle g file)
          ((n + 1) % 2 ^ 8)
          0
          (drop (size_of (settle g file)) file)
          answers'
          out'
          inc'
      → answers ≡ ack ∷ answers'
      → out ≡ framed w g n file ++ out'
      → inc ≡ start_of (settle g file) ∷ number ∷ comp ∷ (checked w g file ++ inc')
      → Crosses w f g n tries file answers out inc
  damaged :
      {g : XferMode} {n tries : ℕ} {file answers out inc answers' out' inc' : List ℕ}
      (number comp : ℕ) (got : List ℕ)
      → tries ≤ patience f
      → (number ≡ n) ⊎ (comp ≡ 255 - n)
      → Damages (settle g file) (checked w g file) got
      → Crosses w f (settle g file) n (suc tries) file answers' out' inc'
      → answers ≡ nak ∷ answers'
      → out ≡ framed w g n file ++ out'
      → inc ≡ start_of (settle g file) ∷ number ∷ comp ∷ (got ++ inc')
      → Crosses w f g n tries file answers out inc
  stray :
      {g : XferMode} {n tries : ℕ} {file answers out inc inc' : List ℕ} (x : ℕ)
      → tries ≤ patience f
      → IsIdle f x
      → Crosses w f g n (suc tries) file answers out inc'
      → inc ≡ x ∷ inc'
      → Crosses w f g n tries file answers out inc
