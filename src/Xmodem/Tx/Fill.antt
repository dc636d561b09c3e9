-- ===== src/Xmodem/Tx/Fill.antt =====
-- What one round of `xmodem_tx` puts into the packet buffer: the block that the channel gives,
-- padded, and its checksum or CRC.
use libmodem.Modem.{data_start, OutputChannel, XferMode}
use libmodem.Prelude.{
  ℕ, ◌+◌, ◌-◌, ◌≤◌, ◌≡◌, refl, sym, ap, ◌∙◌, inl, inr, false, List, [], ◌∷◌, ◌++◌, length, take,
  drop, ltb, arith, min, length-append, length-take, length-drop, take-append-drop, Bool-cases,
  ltb→lt,
}
use libmodem.Prelude.Int.{pos}
use libmodem.Serial.Primitives.{Serprim}
use libmodem.Xmodem.Buffer.{at, store_ok}
use libmodem.Xmodem.Frame.{start_of, size_of, block_of, settle, vars}
use libmodem.Xmodem.Session.{ok, store}
use libmodem.Xmodem.Tx.Pad.{switch_lem, pad_short, pad_full, settle_le}
use libmodem.Xmodem.Tx.{fetch, fill}

-- An output channel that hands out a file, as src/modem.h documents it: `last_sent_size` moves it
-- on, and as much of the request as is left is stored. `Serves` has the values of `last_sent_size`
-- with which it may be called in a state; afterwards these are the sizes of what it has left.
pub record IsReader {C : Type 0} (channel : OutputChannel C) : Type 1 where
  pub file : C → List ℕ
  pub Serves : ℕ → C → Type 0
  pub stays :
      (n last next : ℕ) (c : C)
      → Serves last c
      → next ≤ length (drop last (file c))
      → Serves next (channel n last c).chan
  pub moves :
      (n last : ℕ) (c : C) → Serves last c → file (channel n last c).chan ≡ drop last (file c)
  pub gives :
      (n last : ℕ) (c : C) → Serves last c → (channel n last c).bytes ≡ take n (drop last (file c))
  pub counts :
      (n last : ℕ) (c : C)
      → Serves last c
      → (channel n last c).result ≡ pos (min n (length (drop last (file c))))

ltb-false : (a b : ℕ) → ltb a b ≡ false → b ≤ a
ltb-false a b h = ground arith

module _ {P : Serprim} {C : Type 0} (c : C) (p : P.Port) where
  fetch_lem :
      {channel : OutputChannel C} (R : IsReader channel) (n last a b d : ℕ) (body : List ℕ)
      → R.Serves last c
      → n ≤ length body
      → let rest = drop last (R.file c) in
        let got = min n (length rest) in
        fetch channel n last (at P (a ∷ b ∷ d ∷ body) c p)
        ≡ ok (pos got) (at P (a ∷ b ∷ d ∷ (take n rest ++ drop got body)) (channel n last c).chan p)
  unfolding fetch
  fetch_lem {channel} R n last a b d body h fits =
      let rest = drop last (R.file c) in
      let got : ℕ = min n (length rest) in
      let c' = (channel n last c).chan in
      let stored : store data_start (take n rest) (at P (a ∷ b ∷ d ∷ body) c' p)
          ≡ ok tt (at P (a ∷ b ∷ d ∷ (take n rest ++ drop got body)) c' p) =
        ap (λ t. store data_start (take n rest) (at P (a ∷ b ∷ d ∷ t) c' p))
          (sym (take-append-drop got body))
        ∙ store_ok {P = P} c' p (a ∷ b ∷ d ∷ []) (take got body) (drop got body) data_start
            (take n rest) refl (omega (arith, length-take {0} n rest, length-take {0} got body)) in
      rw (R.gives n last c h, stored, R.counts n last c h)

  -- The buffer and the variables behind `fill`.
  pub fill_lem :
      {channel : OutputChannel C} (R : IsReader channel) (f : XferMode) (last code a b : ℕ)
      (body : List ℕ)
      → R.Serves last c
      → size_of f ≤ length body
      → let rest = drop last (R.file c) in
        let g = settle f rest in
        (tail : List ℕ) × (fill channel
            (vars f last false code)
            (at P (start_of f ∷ a ∷ b ∷ body) c p)
          ≡ ok (vars g last (ltb (length rest) (size_of g)) code) (
              at P
                (start_of g ∷ a ∷ b ∷ (block_of (size_of g) rest ++ tail))
                (channel (size_of f) last c).chan
                p))
        × (size_of g + length tail ≡ length body)
  unfolding fill
  fill_lem {channel} R f last code a b body h fits =
      let rest = drop last (R.file c) in
      let g = settle f rest in
      let got : ℕ = min (size_of f) (length rest) in
      let back = drop got body in
      let c' = (channel (size_of f) last c).chan in
      let wide : size_of g ≤ size_of f = settle_le f rest in
      let switched =
        switch_lem {P = P} c' p f got last code rest (a ∷ b ∷ (take (size_of f) rest ++ back))
          refl in
      elim (Bool-cases (ltb (length rest) (size_of g))) [
        | inl short ↦ (
          drop (size_of g - length rest) back,
          rw (
            fetch_lem R (size_of f) last (start_of f) a b body h fits,
            switched,
            pad_short {P = P} c' p g (size_of f) last code (start_of g) a b rest back wide
                (omega (arith, length-drop {0} got body)) (ltb→lt _ _ short),
            short,
          ),
          omega (
            arith,
            ltb→lt (length rest) (size_of g) short,
            length-drop {0} got body,
            length-drop {0} (size_of g - length rest) back,
          ),
        )
        | inr full ↦ (
          drop (size_of g) (take (size_of f) rest) ++ back,
          rw (
            fetch_lem R (size_of f) last (start_of f) a b body h fits,
            switched,
            pad_full {P = P} c' p g (size_of f) last code (start_of g) a b rest back wide
                (ground arith),
            full,
          ),
          omega (
            arith,
            length-append {0} (drop (size_of g) (take (size_of f) rest)) back,
            length-drop {0} (size_of g) (take (size_of f) rest),
            length-take {0} (size_of f) rest,
            length-drop {0} got body,
            (ltb-false (length rest) (size_of g) full),
          ),
        )
      ]
