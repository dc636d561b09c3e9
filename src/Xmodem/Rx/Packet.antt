-- ===== src/Xmodem/Rx/Packet.antt =====
-- A packet whose first character has come to `xmodem_rx`, on a line that works: good ones are
-- stored and acknowledged, corrupted ones are asked for again.
use native.Mathlib.Nat.{mod-eq_of_lt}
use libmodem.Modem.{
  ack, nak, block_no, comp_block_no, data_start, InputChannel, modem_no_errors, bad_crc_chksum,
  XferMode, xmodem, xmodem_crc, xmodem_1k,
}
use libmodem.Prelude.{
  ℕ, ◌+◌, ◌-◌, ◌%◌, ◌^◌, ◌≤◌, ◌<◌, ◌≡◌, ◌⊎◌, inl, inr, refl, sym, ap, ◌∙◌, Bool, true, false, not,
  ◌&&◌, List, [], ◌∷◌, ◌++◌, length, take, drop, ltb, ◌==◌, arith, append_assoc, length-append,
  length-take, length-drop, take-append-drop,
}
use libmodem.Prelude.Int.{pos}
use libmodem.Serial.Primitives.{Serprim, Handle}
use libmodem.Xmodem.Buffer.{at, load_ok, store_ok}
use libmodem.Xmodem.Frame.{start_of, size_of, trailer_size}
use libmodem.Xmodem.Line.{IsLine, rcv_ok, snd_ok}
use libmodem.Xmodem.Rx.{deliver, check_packet, accept, respond, rx_packet}
use libmodem.Xmodem.Rx.Course.{packet_mode}
use libmodem.Xmodem.Rx.First.{vars, adjust-vars}
use libmodem.Xmodem.Rx.Verdict.{verdict, check_sum_lem}
use libmodem.Xmodem.Session.{ok, load, load_byte, store, to_unsigned}

-- An `input_channel_t` that stores what it is given, as far as it has room, and says so, as
-- src/modem.h documents it. `HasRoom` has the states in which it can take so many bytes.
pub record IsWriter {C : Type 0} (channel : InputChannel C) : Type 1 where
  pub stored : C → List ℕ
  pub HasRoom : ℕ → C → Type 0
  pub fewer : (j k : ℕ) (c : C) → j ≤ k → HasRoom k c → HasRoom j c
  pub takes :
      (xs : List ℕ) (n k : ℕ) (c : C)
      → n ≡ length xs
      → n ≤ k
      → HasRoom k c
      → (channel xs n false c).0 ≡ pos n
  pub stays :
      (xs : List ℕ) (n k : ℕ) (c : C)
      → n ≡ length xs
      → n ≤ k
      → HasRoom k c
      → HasRoom (k - n) (channel xs n false c).1
  pub keeps :
      (xs : List ℕ) (n k : ℕ) (c : C)
      → n ≡ length xs
      → n ≤ k
      → HasRoom k c
      → stored (channel xs n false c).1 ≡ stored c ++ xs

in_step :
    (n number comp : ℕ)
    → (number ≡ n) ⊎ (comp ≡ 255 - n)
    → (not (comp == 255 - n) && not (number == n)) ≡ false
in_step n number comp (inl e) = ground arith
in_step n number comp (inr e) = ground arith

all_written : (w size : ℕ) → size < 2 ^ w → ltb (to_unsigned w (pos size)) size ≡ false
all_written w size h = rw (mod-eq_of_lt h) (irreflexive size)
  where
    irreflexive : (n : ℕ) → ltb n n ≡ false
    irreflexive n = ground arith

module _ {P : Serprim} {h : Handle} {C : Type 0} (channel : InputChannel C) (L : IsLine P h) where
  -- The packet is read and tested.
  pub rx_packet_lem :
      (fuel : ℕ) (f : XferMode) (small small' : Bool) (n tx tries number comp : ℕ)
      (block tag rest inc : List ℕ) (c : C) (p : P.Port)
      → let g = packet_mode f small' in
        length block ≡ size_of g
        → length tag ≡ trailer_size g
        → (number ≡ n) ⊎ (comp ≡ 255 - n)
        → 2 + size_of g + trailer_size g ≤ length rest
        → L.incoming p ≡ (number ∷ comp ∷ (block ++ tag)) ++ inc
        → (back : List ℕ) × (p' : P.Port) × (rx_packet h channel fuel
              (vars f small n tx tries false)
              (at P (start_of g ∷ rest) c p)
            ≡ respond h channel
                (verdict P.int_bits g block tag)
                (vars f small' n tx tries false)
                (at P (start_of g ∷ number ∷ comp ∷ ((block ++ tag) ++ back)) c p'))
          × (2 + size_of g + trailer_size g + length back ≡ length rest)
          × (L.incoming p' ≡ inc)
          × (L.outgoing p' ≡ L.outgoing p)
          × (L.later p' ≡ L.later p)
  unfolding rx_packet check_packet load_byte
  rx_packet_lem fuel f small small' n tx tries number comp block tag rest inc c p e e' step room
        arrives =
      let g = packet_mode f small' in
      let a : ℕ = start_of g in
      let body = number ∷ comp ∷ (block ++ tag) in
      let k : ℕ = 2 + size_of g + trailer_size g in
      let back = drop k rest in
      let whole : length body ≡ k = omega (arith, length-append {0} block tag) in
      let (p', got, left, same, quiet) =
        rcv_ok L body inc (data_start + size_of g + trailer_size g - block_no) 1
          (at P (a ∷ rest) c p) arrives (omega arith) in
      let stored =
        ap (λ t. store 1 body (at P (a ∷ t) c p')) (sym (take-append-drop k rest))
        ∙ store_ok {P = P} c p' (a ∷ []) (take k rest) back 1 body refl
            (omega (arith, length-take {0} k rest)) in
      (
        back,
        p',
        rw (
          load_ok {P = P} c p [] (a ∷ []) rest 0 1 refl refl,
          adjust-vars f small small' n tx tries,
          got,
          stored,
          load_ok {P = P} c p' (a ∷ number ∷ []) (comp ∷ []) ((block ++ tag) ++ back) comp_block_no
              1 refl refl,
          load_ok {P = P} c p' (a ∷ []) (number ∷ []) (comp ∷ ((block ++ tag) ++ back)) block_no 1
              refl refl,
          in_step n number comp step,
          check_sum_lem {P = P} c p' f small' n tx tries a number comp block tag back e e',
        ),
        omega (arith, length-drop {0} k rest),
        left,
        same,
        quiet,
      )

  -- A good packet is stored and acknowledged, and the next one expected.
  pub accept_lem :
      (W : IsWriter channel) (f : XferMode) (small : Bool) (n tx tries a number comp : ℕ)
      (block tag back : List ℕ) (c : C) (p : P.Port)
      → length block ≡ size_of (packet_mode f small)
      → 1024 < 2 ^ P.size_bits
      → (k : ℕ) → length block ≤ k
      → W.HasRoom k c
      → let s = a ∷ number ∷ comp ∷ ((block ++ tag) ++ back) in
        let size = data_start + size_of (packet_mode f small) - data_start in
        let c' = (channel block size false c).1 in
        (p' : P.Port) × (respond h channel modem_no_errors
            (vars f small n tx tries false)
            (at P s c p)
          ≡ ok (vars f small ((n + 1) % 2 ^ 8) nak (2 ^ P.int_bits - 1) false) (at P s c' p'))
        × (W.stored c' ≡ W.stored c ++ block)
        × (L.incoming p' ≡ L.incoming p)
        × (L.outgoing p' ≡ L.outgoing p ++ ack ∷ [])
        × (L.later p' ≡ L.later p)
  unfolding respond accept deliver
  accept_lem W f small n tx tries a number comp block tag back c p e wide k enough room =
      let s = a ∷ number ∷ comp ∷ ((block ++ tag) ++ back) in
      let size : ℕ = data_start + size_of (packet_mode f small) - data_start in
      let full : size ≡ length block = omega arith in
      let c' = (channel block size false c).1 in
      let (p', sent, in1, out1, quiet1) = snd_ok L (ack ∷ []) (at P s c' p) in
      let loaded : load data_start size (at P s c p) ≡ ok block (at P s c p) =
        ap (λ t. load data_start size (at P (a ∷ number ∷ comp ∷ t) c p))
          (append_assoc block tag back)
        ∙ load_ok {P = P} c p (a ∷ number ∷ comp ∷ []) block (tag ++ back) data_start size refl full
        ∙ ap (λ t. ok block (at P (a ∷ number ∷ comp ∷ t) c p))
            (sym (append_assoc block tag back)) in
      (
        p',
        rw (
          loaded,
          W.takes block size k c full (omega arith) room,
          all_written P.size_bits size (fits f small),
          sent,
        ),
        W.keeps block size k c full (omega arith) room,
        in1,
        out1,
        quiet1,
      )
    where
      fits :
          (f : XferMode) (small : Bool)
          → data_start + size_of (packet_mode f small) - data_start < 2 ^ P.size_bits
      fits xmodem small = omega arith
      fits xmodem_crc small = omega arith
      fits xmodem_1k true = omega arith
      fits xmodem_1k false = omega arith

  -- A corrupted packet is asked for again.
  pub reject_lem :
      (f : XferMode) (small : Bool) (n tx tries : ℕ) (s : List ℕ) (c : C) (p : P.Port)
      → (p' : P.Port) × (respond h channel bad_crc_chksum
            (vars f small n tx tries false)
            (at P s c p)
          ≡ ok (vars f small n nak tries false) (at P s c p'))
        × (L.incoming p' ≡ L.incoming p)
        × (L.outgoing p' ≡ L.outgoing p ++ nak ∷ [])
        × (L.later p' ≡ L.later p)
  unfolding respond
  reject_lem f small n tx tries s c p =
      let (p', sent, in1, out1, quiet1) = snd_ok L (nak ∷ []) (at P s c p) in
      (p', rw sent, in1, out1, quiet1)
