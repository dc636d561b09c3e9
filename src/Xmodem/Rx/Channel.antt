-- ===== src/Xmodem/Rx/Channel.antt =====
-- What `xmodem_rx` makes of the result of its channel, on a line that works.
use native.Mathlib.Nat.{mod-eq_of_lt}
use libmodem.Modem.{ack, nak, can, data_start, InputChannel, channel_error, XferMode}
use libmodem.Prelude.{
  ℕ, ◌+◌, ◌-◌, ◌%◌, ◌^◌, ◌≤◌, ◌<◌, ◌≡◌, refl, Bool, true, false, List, [], ◌∷◌, ◌++◌, length, ltb,
  arith,
}
use libmodem.Prelude.Int.{pos, negsuc}
use libmodem.Serial.Primitives.{Serprim, Handle}
use libmodem.Xmodem.Buffer.{at, load_ok}
use libmodem.Xmodem.Frame.{size_of}
use libmodem.Xmodem.Line.{IsLine, snd_ok}
use libmodem.Xmodem.Rx.{accept, deliver}
use libmodem.Xmodem.Rx.Course.{packet_mode}
use libmodem.Xmodem.Rx.First.{vars}
use libmodem.Xmodem.Session.{ok, stop, to_unsigned}

short_test : (w n size : ℕ) → n < size → size < 2 ^ w → ltb (to_unsigned w (pos n)) size ≡ true
short_test w n size less fits =
    rw (mod-eq_of_lt {n = n} {m = 2 ^ w} (omega arith)) (below n size less)
  where
    below : (a b : ℕ) → a < b → ltb a b ≡ true
    below a b h = ground arith

negative_test : (w n size : ℕ) → n + size < 2 ^ w → ltb (to_unsigned w (negsuc n)) size ≡ false
negative_test w n size fits =
    rw (mod-eq_of_lt {n = n} {m = 2 ^ w} (omega arith)) (above (2 ^ w - 1 - n) size (omega arith))
  where
    above : (a b : ℕ) → b ≤ a → ltb a b ≡ false
    above a b h = ground arith

module _ {P : Serprim} {h : Handle} {C : Type 0} (channel : InputChannel C) (L : IsLine P h)
    (f : XferMode) (small : Bool) (n tx tries a number comp : ℕ) (block back : List ℕ) (c : C)
    (p : P.Port) where
  -- If the channel takes less than the block, the transfer is cancelled with a channel error.
  pub accept-short :
      let size = data_start + size_of (packet_mode f small) - data_start in
      let (result, c') = channel block size false c in
      let s = a ∷ number ∷ comp ∷ (block ++ back) in
      (r : ℕ)
      → length block ≡ size
      → result ≡ pos r
      → r < size
      → size < 2 ^ P.size_bits
      → (p' : P.Port) × (accept h channel (vars f small n tx tries false) (at P s c p)
          ≡ stop channel_error (at P s c' p'))
        × (L.incoming p' ≡ L.incoming p)
        × (L.outgoing p' ≡ L.outgoing p ++ can ∷ [])
  unfolding accept deliver
  accept-short r e taken less fits =
      let size : ℕ = data_start + size_of (packet_mode f small) - data_start in
      let s = a ∷ number ∷ comp ∷ (block ++ back) in
      let (p', sent, in1, out1, quiet1) =
        snd_ok L (can ∷ []) (at P s (channel block size false c).1 p) in
      (
        p',
        rw (
          load_ok {P = P} c p (a ∷ number ∷ comp ∷ []) block back data_start size refl
              (omega (arith, e)),
          taken,
          short_test P.size_bits r size less fits,
          sent,
        ),
        in1,
        out1,
      )

  -- If the channel reports an error by a negative result, and `size_t` is wide enough for it, the
  -- receiver acknowledges the packet and goes on to the next one.
  pub accept-negative :
      let size = data_start + size_of (packet_mode f small) - data_start in
      let (result, c') = channel block size false c in
      let s = a ∷ number ∷ comp ∷ (block ++ back) in
      (r : ℕ)
      → length block ≡ size
      → result ≡ negsuc r
      → r + size < 2 ^ P.size_bits
      → (p' : P.Port) × (accept h channel (vars f small n tx tries false) (at P s c p)
          ≡ ok (vars f small ((n + 1) % 2 ^ 8) nak (2 ^ P.int_bits - 1) false) (at P s c' p'))
        × (L.incoming p' ≡ L.incoming p)
        × (L.outgoing p' ≡ L.outgoing p ++ ack ∷ [])
  unfolding accept deliver
  accept-negative r e failed fits =
      let size : ℕ = data_start + size_of (packet_mode f small) - data_start in
      let s = a ∷ number ∷ comp ∷ (block ++ back) in
      let (p', sent, in1, out1, quiet1) =
        snd_ok L (ack ∷ []) (at P s (channel block size false c).1 p) in
      (
        p',
        rw (
          load_ok {P = P} c p (a ∷ number ∷ comp ∷ []) block back data_start size refl
              (omega (arith, e)),
          failed,
          negative_test P.size_bits r size fits,
          sent,
        ),
        in1,
        out1,
      )
