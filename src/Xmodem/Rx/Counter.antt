-- ===== src/Xmodem/Rx/Counter.antt =====
-- The counter of errors of `xmodem_rx`, and the room that its packets take.
use native.Mathlib.Nat.{mod-eq_of_lt, mod_self, pow-suc}
use native.Mathlib.Decide.{dec_le}
use libmodem.Modem.{XferMode, xmodem, xmodem_crc, xmodem_1k}
use libmodem.Prelude.{
  ℕ, zero, suc, ◌+◌, ◌-◌, ◌%◌, ◌^◌, ◌≤◌, ◌≡◌, ap, ◌∙◌, Bool, true, false, List, arith,
}
use libmodem.Xmodem.Frame.{size_of, trailer_size}
use libmodem.Xmodem.Rx.Course.{packet_mode, patience, Receives}

pub patience-le : (f : XferMode) → patience f ≤ 11
patience-le xmodem = omega arith
patience-le xmodem_crc = omega arith
patience-le xmodem_1k = omega arith

pub few_tries :
    {w n tries : ℕ} {f : XferMode} {inc answers held : List ℕ}
    → Receives w f n tries inc answers held
    → tries ≤ patience f
few_tries (Receives.ended few e e1 e2) = few
few_tries (Receives.noise x few idle course e) = few
few_tries (Receives.accepted small number comp block few size step course e e1 e2) = few
few_tries
      (Receives.rejected small number comp block tag few size size' bytes bad step course e e1) =
    few

pub room_for :
    (f : XferMode) (small : Bool) (room : ℕ)
    → 2 + size_of f + trailer_size f ≤ room
    → 2 + size_of (packet_mode f small) + trailer_size (packet_mode f small) ≤ room
room_for xmodem small room h = h
room_for xmodem_crc small room h = h
room_for xmodem_1k true room h = omega arith
room_for xmodem_1k false room h = h

word-le : (w : ℕ) → 16 ≤ w → 2 ^ 16 ≤ 2 ^ w
word-le zero wide = absurd (omega arith)
word-le (suc w) wide = elim (dec_le 16 w) [
  | yes more ↦ omega (arith, pow-suc 2 w, word-le w more)
  | no few ↦ let e : 15 ≡ w = omega arith in omega (arith, pow-suc 2 w, ap (λ (t : ℕ). 2 ^ t) e)
]

-- The counter of errors goes on without wrapping, and from its first value on it is 0.
pub counts_on : (w tries : ℕ) → 16 ≤ w → tries ≤ 11 → (tries + 1) % 2 ^ w ≡ suc tries
counts_on w tries wide few = mod-eq_of_lt (omega (arith, word-le w wide)) ∙ omega arith

pub wraps : (w : ℕ) → 16 ≤ w → (2 ^ w - 1 + 1) % 2 ^ w ≡ 0
wraps w wide = ap (λ (t : ℕ). t % 2 ^ w) (omega (arith, word-le w wide)) ∙ mod_self (2 ^ w)
