-- ===== src/Xmodem/Agreement.antt =====
-- The protocol as `xmodem_tx` and as `xmodem_rx` of src/xmodem.c keep it: what the one sends is a
-- course for the other.
use native.Mathlib.Decide.{dec_lt}
use libmodem.Crc.Errors.{generate_crc-width}
use libmodem.Modem.{eot, ack, cpmeof, XferMode, xmodem, xmodem_crc, xmodem_1k}
use libmodem.Prelude.{
  ℕ, zero, suc, ◌+◌, ◌-◌, ◌%◌, ◌^◌, ◌≤◌, ◌<◌, ◌≡◌, refl, sym, ap, subst, ◌∙◌, inl, Bool, true,
  false, ◌||◌, List, [], ◌∷◌, ◌++◌, All, length, take, drop, ltb, replicate, arith, append_assoc,
  append-nil, take-append-drop, length-take, length-drop, ◌/◌,
}
use libmodem.Xmodem.Buffer.{take-all}
use libmodem.Xmodem.Frame.{start_of, size_of, trailer, frame, block_of, settle, length-block_of}
use libmodem.Xmodem.Rx.Course.{packet_mode, Receives}
use libmodem.Xmodem.Tx.Packets.{Sends, final, next_block, repeated}

-- The transmitter's small packets are the receiver's.
pub settle-packet_mode :
    (f : XferMode) (small : Bool) (file : List ℕ)
    → settle (packet_mode f small) file ≡ packet_mode f (small || ltb (length file) 1024)
settle-packet_mode xmodem small file = refl
settle-packet_mode xmodem_crc small file = refl
settle-packet_mode xmodem_1k true file = refl
settle-packet_mode xmodem_1k false file = refl

pub large : (f : XferMode) → f ≡ packet_mode f false
large xmodem = refl
large xmodem_crc = refl
large xmodem_1k = refl

pub block_of-short :
    (size : ℕ) (file : List ℕ)
    → length file ≤ size
    → block_of size file ≡ file ++ replicate (size - length file) cpmeof
unfolding block_of
block_of-short size file short =
    ap (λ t. t ++ replicate (size - length t) cpmeof) (take-all size file short)

pub block_of-full :
    (size : ℕ) (file : List ℕ) → size ≤ length file → block_of size file ≡ take size file
unfolding block_of
block_of-full size file full =
    let none_left : size - length (take size file) ≡ 0 = omega (arith, length-take {0} size file) in
    ap (λ (t : ℕ). take size file ++ replicate t cpmeof) none_left ∙ append-nil (take size file)

pub size-le : (g : XferMode) (used : ℕ) → size_of g - used ≤ 1024
size-le xmodem used = omega arith
size-le xmodem_crc used = omega arith
size-le xmodem_1k used = omega arith

-- The packets that the transmitter sends for ACKs are a course for the receiver.
pub Sends-Receives :
    {w : ℕ} {g : XferMode} {n : ℕ} {file answers out : List ℕ} (f : XferMode) (small : Bool)
    → Sends w g n file answers out
    → g ≡ packet_mode f small
    → All (λ x. x ≡ ack) answers
    → (pad : ℕ) × (pad ≤ 1024)
      × Receives w f n 0 (out ++ eot ∷ []) answers (file ++ replicate pad cpmeof)
Sends-Receives {w} {g} {n} {file} f small (final short e e') same acks =
    let small' = small || ltb (length file) 1024 in
    let mode : settle g file ≡ packet_mode f small' =
      ap (λ t. settle t file) same ∙ settle-packet_mode f small file in
    let size : ℕ = size_of (packet_mode f small') in
    let short' : length file < size = subst (λ t. length file < size_of t) mode short in
    (
      size - length file,
      size-le (packet_mode f small') (length file),
      Receives.accepted small' n (255 - n) (block_of size file) (omega arith)
          (length-block_of size file) (inl refl) (Receives.ended (omega arith) refl refl refl)
          (ap (λ t. t ++ eot ∷ []) (e' ∙ ap (λ t. frame w t n (block_of (size_of t) file)) mode)) e
          (sym (block_of-short size file (omega arith)) ∙ sym (append-nil _)),
    )
Sends-Receives {w} {g} {n} {file} f small
      (next_block {answers' = answers'} {out' = out'} full sends e e') same acks =
    let small' = small || ltb (length file) 1024 in
    let mode : settle g file ≡ packet_mode f small' =
      ap (λ t. settle t file) same ∙ settle-packet_mode f small file in
    let size : ℕ = size_of (settle g file) in
    let all_acks = subst (All (λ x. x ≡ ack)) e acks in
    let (pad, small_pad, course) = Sends-Receives f small' sends mode all_acks.1 in
    let block = block_of (size_of (packet_mode f small')) file in
    let left = drop size file ++ replicate pad cpmeof in
    (
      pad,
      small_pad,
      Receives.accepted small' n (255 - n) block (omega arith)
          (length-block_of (size_of (packet_mode f small')) file) (inl refl) course
          (ap (λ t. t ++ eot ∷ [])
              (e' ∙ ap (λ t. frame w t n (block_of (size_of t) file) ++ out') mode)
            ∙ append_assoc (frame w (packet_mode f small') n block) out' (eot ∷ []))
          e
          (ap (λ t. t ++ replicate pad cpmeof) (sym (take-append-drop size file))
            ∙ append_assoc (take size file) (drop size file) (replicate pad cpmeof)
            ∙ ap (λ t. t ++ left) (sym (block_of-full size file full))
            ∙ ap (λ t. block_of (size_of t) file ++ left) mode),
    )
Sends-Receives f small (repeated {answers' = answers'} sends e e') same acks =
    absurd (omega (arith, (subst (All (λ x. x ≡ ack)) e acks).0))

size-pos : (g : XferMode) → 0 < size_of g
size-pos xmodem = omega arith
size-pos xmodem_crc = omega arith
size-pos xmodem_1k = omega arith

pub answers_by_acks : (m : ℕ) → All (λ x. x ≡ ack) (replicate m ack)
answers_by_acks zero = tt
answers_by_acks (suc m) = (refl, answers_by_acks m)

courses_from :
    (w : ℕ) (f : XferMode) (n bound : ℕ) (file : List ℕ)
    → length file < bound
    → (m : ℕ) × (out : List ℕ) × (m ≤ bound) × Sends w f n file (replicate m ack) out
courses_from w f n zero file small = absurd (omega arith)
courses_from w f n (suc bound) file small =
    let g = settle f file in
    let block = block_of (size_of g) file in
    elim (dec_lt (length file) (size_of g)) [
      | yes short ↦ (1, frame w g n block, omega arith, final short refl refl)
      | no long ↦
          let (m, out, few, sends) =
            courses_from w g ((n + 1) % 2 ^ 8) bound (drop (size_of g) file)
              (omega (arith, length-drop {0} (size_of g) file, size-pos g, long)) in
          (
            suc m,
            frame w g n block ++ out,
            omega arith,
            next_block (omega (arith, long)) sends refl refl,
          )
    ]

-- For every file and mode there is a course of ACKs, at most one for each byte and one more, by
-- which the transmitter sends the file.
pub transmission_exists :
    (w : ℕ) (f : XferMode) (file : List ℕ)
    → (m : ℕ) × (out : List ℕ) × (m ≤ suc (length file)) × Sends w f 1 file (replicate m ack) out
transmission_exists w f file = courses_from w f 1 (suc (length file)) file (omega arith)

pub trailer-width :
    (v w : ℕ) (g : XferMode) (block : List ℕ)
    → 16 ≤ v
    → 16 ≤ w
    → trailer v g block ≡ trailer w g block
trailer-width v w xmodem block p q = refl
trailer-width v w xmodem_crc block p q =
    ap (λ (c : ℕ). (c / 256) ∷ (c % 256) ∷ []) (generate_crc-width v w block p q)
trailer-width v w xmodem_1k block p q =
    ap (λ (c : ℕ). (c / 256) ∷ (c % 256) ∷ []) (generate_crc-width v w block p q)

frame-width :
    (v w : ℕ) (g : XferMode) (n : ℕ) (block : List ℕ)
    → 16 ≤ v
    → 16 ≤ w
    → frame v g n block ≡ frame w g n block
frame-width v w g n block p q =
    ap (λ t. start_of g ∷ n ∷ (255 - n) ∷ (block ++ t)) (trailer-width v w g block p q)

pub Sends-width :
    (v w : ℕ) {g : XferMode} {n : ℕ} {file answers out : List ℕ}
    → 16 ≤ v
    → 16 ≤ w
    → Sends v g n file answers out
    → Sends w g n file answers out
Sends-width v w p q (final short e e') = final short e (e' ∙ frame-width v w _ _ _ p q)
Sends-width v w p q (next_block {out' = out'} full sends e e') =
    next_block full (Sends-width v w p q sends) e
      (e' ∙ ap (λ t. t ++ out') (frame-width v w _ _ _ p q))
Sends-width v w p q (repeated {out' = out'} sends e e') =
    repeated (Sends-width v w p q sends) e (e' ∙ ap (λ t. t ++ out') (frame-width v w _ _ _ p q))
