-- ===== src/Xmodem/Tx/Pad.antt =====
-- The switch of `xmodem_tx` to small packets, and the padding of a short one.
use libmodem.Modem.{soh, stx, cpmeof, data_start, XferMode, xmodem, xmodem_crc, xmodem_1k}
use libmodem.Prelude.{
  ℕ, ◌+◌, ◌-◌, ◌≤◌, ◌<◌, ◌≡◌, refl, sym, ap, ◌∙◌, inl, inr, true, false, List, [], ◌∷◌, ◌++◌,
  length, take, drop, ltb, replicate, arith, min, length-take, length-replicate, take-append-drop,
  append-nil, append_assoc, Bool-cases, lt→ltb,
}
use libmodem.Serial.Primitives.{Serprim}
use libmodem.Xmodem.Buffer.{at, store_ok, take-all, take-take}
use libmodem.Xmodem.Frame.{start_of, size_of, block_of, settle, vars}
use libmodem.Xmodem.Session.{ok}
use libmodem.Xmodem.Tx.{switch_to_128, pad_packet}

ltb-min : (a b c : ℕ) → c ≤ a → ltb (min a b) c ≡ ltb b c
ltb-min a b c h = ground arith

pub settle_le : (f : XferMode) (rest : List ℕ) → size_of (settle f rest) ≤ size_of f
settle_le xmodem rest = omega arith
settle_le xmodem_crc rest = omega arith
settle_le xmodem_1k rest = ground arith

module _ {P : Serprim} {C : Type 0} (c : C) (p : P.Port) where
  -- The switch to small packets, by the number of bytes that came.
  pub switch_lem :
      (flags : XferMode) (n last code : ℕ) (rest body : List ℕ)
      → n ≡ min (size_of flags) (length rest)
      → switch_to_128 n (vars flags last false code) (at P (start_of flags ∷ body) c p)
        ≡ ok
            (vars (settle flags rest) last false code)
            (at P (start_of (settle flags rest) ∷ body) c p)
  unfolding switch_to_128
  switch_lem xmodem n last code rest body e = refl
  switch_lem xmodem_crc n last code rest body e = refl
  switch_lem xmodem_1k n last code rest body e =
      let same : ltb n 1024 ≡ ltb (length rest) 1024 =
        ap (λ k. ltb k 1024) e ∙ ltb-min 1024 (length rest) 1024 (omega arith) in
      elim (Bool-cases (ltb (length rest) 1024)) [
        | inl few ↦
            rw (few, same ∙ few, store_ok {P = P} c p [] (stx ∷ []) body 0 (soh ∷ []) refl refl)
        | inr many ↦ rw (many, same ∙ many)
      ]

  -- The padding of a short packet: `xs` came, and `mid` is what it overwrites.
  pad_lem :
      (g : XferMode) (last code a b d : ℕ) (xs mid back : List ℕ)
      → length xs < size_of g
      → length mid ≡ size_of g - length xs
      → pad_packet
          (length xs)
          (vars g last false code)
          (at P (a ∷ b ∷ d ∷ (xs ++ (mid ++ back))) c p)
        ≡ ok
            (vars g last true code)
            (at P (a ∷ b ∷ d ∷ (xs ++ (replicate (size_of g - length xs) cpmeof ++ back))) c p)
  unfolding pad_packet
  pad_lem g last code a b d xs mid back short e = rw (
    lt→ltb (length xs) (size_of g) short,
    store_ok {P = P} c p (a ∷ b ∷ d ∷ xs) mid back (data_start + length xs)
        (replicate (size_of g - length xs) cpmeof) (omega arith)
        (length-replicate (size_of g - length xs) cpmeof ∙ sym e),
  )

  -- The padding of what came: `m` bytes were asked for, and as much of `rest` as fits was stored.
  pub pad_short :
      (g : XferMode) (m last code a b d : ℕ) (rest back : List ℕ)
      → size_of g ≤ m
      → size_of g ≤ min m (length rest) + length back
      → length rest < size_of g
      → let k = size_of g - length rest in
        pad_packet
          (min m (length rest))
          (vars g last false code)
          (at P (a ∷ b ∷ d ∷ (take m rest ++ back)) c p)
        ≡ ok
            (vars g last true code)
            (at P (a ∷ b ∷ d ∷ (block_of (size_of g) rest ++ drop k back)) c p)
  unfolding block_of
  pad_short g m last code a b d rest back wide room short =
      let k : ℕ = size_of g - length rest in
      let count : min m (length rest) ≡ length rest = omega arith in
      let whole : take m rest ≡ rest = take-all m rest (omega arith) in
      let block : take (size_of g) rest ≡ rest = take-all (size_of g) rest (omega arith) in
      rw (count, whole, block)
        (ap
            (λ t.
              pad_packet (length rest) (vars g last false code)
                (at P (a ∷ b ∷ d ∷ (rest ++ t)) c p))
            (sym (take-append-drop k back))
          ∙ pad_lem g last code a b d rest (take k back) (drop k back) short
              (omega (arith, length-take {0} k back))
          ∙ ap (λ t. ok (vars g last true code) (at P (a ∷ b ∷ d ∷ t) c p))
              (sym (append_assoc rest (replicate k cpmeof) (drop k back))))

  pub pad_full :
      (g : XferMode) (m last code a b d : ℕ) (rest back : List ℕ)
      → size_of g ≤ m
      → size_of g ≤ length rest
      → pad_packet
          (min m (length rest))
          (vars g last false code)
          (at P (a ∷ b ∷ d ∷ (take m rest ++ back)) c p)
        ≡ ok (vars g last false code) (
            at P
              (a ∷ b ∷ d ∷ (block_of (size_of g) rest ++ (drop (size_of g) (take m rest) ++ back)))
              c
              p)
  unfolding pad_packet block_of
  pad_full g m last code a b d rest back wide full =
      let size : ℕ = size_of g in
      let none_left : size - length (take size rest) ≡ 0 =
        omega (arith, length-take {0} size rest) in
      let not_short : ltb (min m (length rest)) size ≡ false = ground arith in
      let block : take size rest ++ replicate (size - length (take size rest)) cpmeof
          ≡ take size rest =
        ap (λ k. take size rest ++ replicate k cpmeof) none_left ∙ append-nil (take size rest) in
      let split : take size rest ++ (drop size (take m rest) ++ back) ≡ take m rest ++ back =
        sym (append_assoc (take size rest) (drop size (take m rest)) back)
        ∙ ap (λ t. t ++ back)
            (ap (λ t. t ++ drop size (take m rest)) (sym (take-take size m rest wide))
              ∙ take-append-drop size (take m rest)) in
      rw (not_short, block, split)
