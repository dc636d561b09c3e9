-- ===== src/Xmodem/Rx/Mismatch.antt =====
-- A packet that `xmodem_rx` takes for a sign of lost synchronicity, on a line that works.
use libmodem.Modem.{can, block_no, comp_block_no, packet_mismatch, XferMode}
use libmodem.Prelude.{
  ℕ, ◌-◌, ◌≡◌, ◌≢◌, refl, Bool, true, false, not, ◌&&◌, ◌==◌, List, [], ◌∷◌, ◌++◌, arith,
}
use libmodem.Serial.{serial_no_errors}
use libmodem.Serial.Primitives.{Serprim, Handle}
use libmodem.Xmodem.Buffer.{at, load_ok}
use libmodem.Xmodem.Line.{IsLine, snd_ok}
use libmodem.Xmodem.Rx.{check_packet}
use libmodem.Xmodem.Rx.First.{vars}
use libmodem.Xmodem.Session.{stop, load_byte}

out_of_step :
    (n number comp : ℕ)
    → number ≢ n
    → comp ≢ 255 - n
    → (not (comp == 255 - n) && not (number == n)) ≡ true
out_of_step n number comp p q = ground arith

-- A packet whose number and whose complement are both not those expected ends the transfer with
-- PACKET_MISMATCH and a CAN, whatever its data; the packet before, sent once more, is no exception.
pub check_packet-mismatch :
    {P : Serprim} {h : Handle} {C : Type 0} (L : IsLine P h) (fuel : ℕ) (f : XferMode)
    (small : Bool) (n tx tries a number comp : ℕ) (body : List ℕ) (c : C) (p : P.Port)
    → number ≢ n
    → comp ≢ 255 - n
    → (p' : P.Port) × (check_packet h fuel
          (vars f small n tx tries false)
          serial_no_errors
          (at P (a ∷ number ∷ comp ∷ body) c p)
        ≡ stop packet_mismatch (at P (a ∷ number ∷ comp ∷ body) c p'))
      × (L.incoming p' ≡ L.incoming p)
      × (L.outgoing p' ≡ L.outgoing p ++ can ∷ [])
      × (L.later p' ≡ L.later p)
unfolding check_packet load_byte
check_packet-mismatch {P} {h} L fuel f small n tx tries a number comp body c p wrong wrong' =
    let (p', sent, in1, out1, quiet1) = snd_ok L (can ∷ []) (at P (a ∷ number ∷ comp ∷ body) c p) in
    (
      p',
      rw (
        load_ok {P = P} c p (a ∷ number ∷ []) (comp ∷ []) body comp_block_no 1 refl refl,
        load_ok {P = P} c p (a ∷ []) (number ∷ []) (comp ∷ body) block_no 1 refl refl,
        out_of_step n number comp wrong wrong',
        sent,
      ),
      in1,
      out1,
      quiet1,
    )
