-- ===== src/Xmodem/Crossing/Courses.antt =====
-- What crosses a line is a course of the protocol for either end.
use libmodem.Modem.{eot, cpmeof, XferMode}
use libmodem.Prelude.{
  ℕ, suc, ◌+◌, ◌-◌, ◌≤◌, ◌<◌, ◌≡◌, ◌≢◌, refl, sym, ap, subst, ◌∙◌, Bool, ◌||◌, List, [], ◌∷◌, ◌++◌,
  All, length, take, drop, ltb, replicate, arith, append_assoc, append-nil, take-append-drop,
}
use libmodem.Xmodem.Agreement.{
  settle-packet_mode, block_of-short, block_of-full, size-le, trailer-width,
}
use libmodem.Xmodem.Crossing.{Crosses, final, intact, damaged, stray}
use libmodem.Xmodem.Crossing.Damage.{damage_apart}
use libmodem.Xmodem.Frame.{
  next_of, start_of, size_of, trailer, trailer_size, block_of, settle, length-block_of,
}
use libmodem.Xmodem.Rx.Course.{packet_mode, packet, patience, IsIdle, Receives}
use libmodem.Xmodem.Tx.Packets.{Sends}

-- The transmitter's side.
pub Crosses-Sends :
    {w : ℕ} {f g : XferMode} {n tries : ℕ} {file answers out inc : List ℕ}
    → Crosses w f g n tries file answers out inc
    → Sends w g n file answers out
Crosses-Sends (final number comp strays p short q r r' e o i) = Sends.final short e o
Crosses-Sends (intact number comp p full q rest e o i) =
    Sends.next_block full (Crosses-Sends rest) e o
Crosses-Sends (damaged number comp got p q d rest e o i) = Sends.repeated (Crosses-Sends rest) e o
Crosses-Sends (stray x p q rest i) = Crosses-Sends rest

-- Characters before the EOT.
strays_end :
    (w : ℕ) (f : XferMode) (n tries : ℕ) (strays : List ℕ)
    → All (IsIdle f) strays
    → tries + length strays ≤ patience f
    → Receives w f n tries (strays ++ eot ∷ []) [] []
strays_end w f n tries [] h few = Receives.ended (omega arith) refl refl refl
strays_end w f n tries (x ∷ strays) h few =
    Receives.noise x (omega arith) h.0 (strays_end w f n (suc tries) strays h.1 (omega arith)) refl

-- What arrives for a packet whose data and check bytes are intact.
pub arrives :
    (v w : ℕ) {g g' : XferMode} (file rest : List ℕ)
    → 16 ≤ v
    → 16 ≤ w
    → (number comp : ℕ) → g ≡ g'
    → start_of g
        ∷ number
        ∷ comp
        ∷ ((block_of (size_of g) file ++ trailer v g (block_of (size_of g) file)) ++ rest)
      ≡ packet g' number comp
          (block_of (size_of g') file)
          (trailer w g' (block_of (size_of g') file))
        ++ rest
arrives v w {g} file rest wide wide' number comp same =
    let block = block_of (size_of g) file in
    ap (λ t. packet g number comp block t ++ rest) (trailer-width v w g block wide wide')
    ∙ ap
        (λ t.
          packet t number comp (block_of (size_of t) file) (trailer w t (block_of (size_of t) file))
          ++ rest)
        same

-- The receiver's side, as its file grows by what the blocks fill up.
pub Crosses-Receives :
    (v w : ℕ) (f : XferMode) {g : XferMode} {n tries : ℕ} {file answers out inc : List ℕ}
    (small : Bool)
    → 16 ≤ v
    → 16 ≤ w
    → Crosses v f g n tries file answers out inc
    → g ≡ packet_mode f small
    → (pad : ℕ) × (pad ≤ 1024) × Receives w f n tries inc answers (file ++ replicate pad cpmeof)
Crosses-Receives v w f {g} {n} {file = file} small wide wide'
      (final number comp strays p short q r r' e o i) same =
    let small' = small || ltb (length file) 1024 in
    let mode : settle g file ≡ packet_mode f small' =
      ap (λ t. settle t file) same ∙ settle-packet_mode f small file in
    let size : ℕ = size_of (packet_mode f small') in
    let short' : length file < size = subst (λ t. length file < size_of t) mode short in
    (
      size - length file,
      size-le (packet_mode f small') (length file),
      Receives.accepted small' number comp (block_of size file) p (length-block_of size file) q
          (strays_end w f _ 0 strays r (omega arith))
          (i ∙ arrives v w file (strays ++ eot ∷ []) wide wide' number comp mode) e
          (sym (block_of-short size file (omega arith)) ∙ sym (append-nil _)),
    )
Crosses-Receives v w f {g} {n} {file = file} small wide wide'
      (intact {inc' = inc'} number comp p full q rest e o i) same =
    let small' = small || ltb (length file) 1024 in
    let mode : settle g file ≡ packet_mode f small' =
      ap (λ t. settle t file) same ∙ settle-packet_mode f small file in
    let size : ℕ = size_of (settle g file) in
    let (pad, small_pad, course) = Crosses-Receives v w f small' wide wide' rest mode in
    let block = block_of (size_of (packet_mode f small')) file in
    let left = drop size file ++ replicate pad cpmeof in
    (
      pad,
      small_pad,
      Receives.accepted small' number comp block p
          (length-block_of (size_of (packet_mode f small')) file) q course
          (i ∙ arrives v w file inc' wide wide' number comp mode) e
          (ap (λ t. t ++ replicate pad cpmeof) (sym (take-append-drop size file))
            ∙ append_assoc (take size file) (drop size file) (replicate pad cpmeof)
            ∙ ap (λ t. t ++ left) (sym (block_of-full size file full))
            ∙ ap (λ t. block_of (size_of t) file ++ left) mode),
    )
Crosses-Receives v w f {g} {n} {file = file} small wide wide'
      (damaged {inc' = inc'} number comp got p q d rest e o i) same =
    let small' = small || ltb (length file) 1024 in
    let mode : settle g file ≡ packet_mode f small' =
      ap (λ t. settle t file) same ∙ settle-packet_mode f small file in
    let (pad, small_pad, course) = Crosses-Receives v w f small' wide wide' rest mode in
    let (block', tag, parts, fits, fits', octets, apart) =
      damage_apart v (settle g file) (next_of g file) got wide d in
    (
      pad,
      small_pad,
      Receives.rejected small' number comp block' tag p
          (fits ∙ length-block_of _ file ∙ ap size_of mode) (fits' ∙ ap trailer_size mode) octets
          (subst (λ t. tag ≢ trailer w t block') mode
            (λ z. apart (z ∙ sym (trailer-width v w _ block' wide wide'))))
          q course
          (i
            ∙ ap (λ t. start_of (settle g file) ∷ number ∷ comp ∷ (t ++ inc')) parts
            ∙ ap (λ t. start_of t ∷ number ∷ comp ∷ ((block' ++ tag) ++ inc')) mode)
          e,
    )
Crosses-Receives v w f small wide wide' (stray x p q rest i) same =
    let (pad, small_pad, course) = Crosses-Receives v w f small wide wide' rest same in
    (pad, small_pad, Receives.noise x p q course i)
