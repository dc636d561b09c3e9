-- ===== src/Xmodem/Rx/Fresh.antt =====
-- The first byte of the buffer while `xmodem_rx` waits for a packet: it is the start of one only if
-- a byte has come off the line.
use libmodem.Modem.{nul, soh, stx, eot, XferMode, xmodem, xmodem_crc, xmodem_1k}
use libmodem.Prelude.{
  ℕ, ◌+◌, ◌-◌, ◌%◌, ◌^◌, ◌≤◌, ◌≡◌, ◌⊎◌, refl, sym, ◌∙◌, true, false, Option-cases, some, inl, inr,
  ◌||◌, List, [], ◌∷◌, length, ◌==◌, arith, subst,
}
use libmodem.Prelude.Int.{pos}
use libmodem.Serial.{SerialStatus, serial_no_errors, serial_timeout}
use libmodem.Serial.Primitives.{Serprim, Handle}
use libmodem.Xmodem.Draining.{
  IsDraining, Ends, Drained-left, load_byte_keeps, store_keeps, rcv_drains,
}
use libmodem.Xmodem.Returns.{returns, faults, weaken}
use libmodem.Xmodem.Rx.{RxVars, rx_start, fallback, adjust}
use libmodem.Xmodem.Rx.Counter.{wraps}
use libmodem.Xmodem.Session.{Session, rcv, slice, overwrite, load, load_byte, store, head_of}

-- The variables at the head of a round: the start characters are two of the protocol's, and the
-- counter has not run out.
abbrev pub InRound : ℕ → RxVars → Type 0
InRound w v =
    (v.expected_start_char_2 ≡ soh)
    × ((v.expected_start_char_1 ≡ soh) ⊎ (v.expected_start_char_1 ≡ stx))
    × ((v.error_count + 1) % 2 ^ w ≤ 12)

-- No packet begins with this character.
abbrev pub IsQuiet : RxVars → ℕ → Type 0
IsQuiet v c =
    (((c == v.expected_start_char_2) || (c == v.expected_start_char_1)) ≡ false)
    × ((c == eot) ≡ false)

pub nul-IsQuiet : (w : ℕ) (v : RxVars) → InRound w v → IsQuiet v nul
nul-IsQuiet w v (e, inl e', few) = rw (e, e') (refl, refl)
nul-IsQuiet w v (e, inr e', few) = rw (e, e') (refl, refl)

pub fallback-starts :
    (v : RxVars)
    → ((fallback v).expected_start_char_1 ≡ v.expected_start_char_1)
      × ((fallback v).expected_start_char_2 ≡ v.expected_start_char_2)
      × ((fallback v).error_count ≡ v.error_count)
unfolding fallback
fallback-starts v = ground arith

pub adjust-starts :
    (c : ℕ) (v : RxVars)
    → ((adjust c v).expected_start_char_1 ≡ v.expected_start_char_1)
      × ((adjust c v).expected_start_char_2 ≡ v.expected_start_char_2)
      × ((adjust c v).error_count ≡ v.error_count)
unfolding adjust
adjust-starts c v = ground arith

pub moved-InRound :
    (w : ℕ) (v v' : RxVars)
    → (v'.expected_start_char_1 ≡ v.expected_start_char_1)
      × (v'.expected_start_char_2 ≡ v.expected_start_char_2)
      × (v'.error_count ≡ v.error_count)
    → InRound w v
    → InRound w v'
moved-InRound w v v' (e, e', e'') (a, inl b, c) = (e' ∙ a, inl (e ∙ b), rw e'' c)
moved-InRound w v v' (e, e', e'') (a, inr b, c) = (e' ∙ a, inr (e ∙ b), rw e'' c)

pub rx_start-InRound : (w : ℕ) (f : XferMode) → 16 ≤ w → InRound w (rx_start w f)
unfolding rx_start
rx_start-InRound w xmodem wide = (refl, inl refl, rw (wraps w wide) (omega arith))
rx_start-InRound w xmodem_crc wide = (refl, inl refl, rw (wraps w wide) (omega arith))
rx_start-InRound w xmodem_1k wide = (refl, inr refl, rw (wraps w wide) (omega arith))

-- The same start characters make the same characters quiet.
pub moved-IsQuiet :
    (v v' : RxVars) (c : ℕ)
    → (v'.expected_start_char_1 ≡ v.expected_start_char_1)
    → (v'.expected_start_char_2 ≡ v.expected_start_char_2)
    → IsQuiet v c
    → IsQuiet v' c
moved-IsQuiet v v' c e e' (quiet, no_end) = (rw (e, e') quiet, no_end)

slice-head : (xs ys : List ℕ) → slice xs 0 1 ≡ some ys → head_of ys ≡ head_of xs
slice-head [] ys e = cc
slice-head (x ∷ xs) ys e = ground arith

overwrite-nul : (xs ys : List ℕ) → overwrite xs 0 (nul ∷ []) ≡ some ys → head_of ys ≡ nul
overwrite-nul xs ys e = ground arith

-- Nothing stored is nothing changed.
overwrite-none : (xs ys : List ℕ) → overwrite xs 0 [] ≡ some ys → ys ≡ xs
overwrite-none xs ys e = ground arith

module _ {P : Serprim} {C : Type 0} (J : P.Port → Type 0) where
  load_first :
      (s : Session P C)
      → J s.port
      → Ends (λ c s'. (c ≡ head_of s.buffer) × (s'.buffer ≡ s.buffer) × J s'.port) (load_byte 0 s)
  unfolding load_byte load
  load_first s j = elim (Option-cases (slice s.buffer 0 1)) [
    | inl e ↦ rw (e, load) (faults tt)
    | inr (xs, e) ↦ rw (e, load) (returns (slice-head s.buffer xs e, refl, j))
  ]

  store_nothing :
      (s : Session P C)
      → J s.port
      → Ends (λ u s'. (s'.buffer ≡ s.buffer) × J s'.port) (store 0 [] s)
  unfolding store
  store_nothing s j = elim (Option-cases (overwrite s.buffer 0 [])) [
    | inl e ↦ rw (e, store) (faults tt)
    | inr (xs, e) ↦ rw (e, store) (returns (overwrite-none s.buffer xs e, j))
  ]

  pub store-nul :
      (s : Session P C)
      → J s.port
      → Ends (λ u s'. (head_of s'.buffer ≡ nul) × J s'.port) (store 0 (nul ∷ []) s)
  unfolding store
  store-nul s j = elim (Option-cases (overwrite s.buffer 0 (nul ∷ []))) [
    | inl e ↦ rw (e, store) (faults tt)
    | inr (xs, e) ↦ rw (e, store) (returns (overwrite-nul s.buffer xs e, j))
  ]

module _ {P : Serprim} {h : Handle} (D : IsDraining P h) {C : Type 0} where
  -- Of `m` bytes that were to come some have come, or the buffer shows no start of a packet.
  abbrev pub Fresh : ℕ → RxVars → Session P C → Type 0
  Fresh m v s = (1 + D.pending s.port ≤ m) ⊎ ((D.pending s.port ≤ m) × IsQuiet v (head_of s.buffer))

  pub Fresh-left : (m : ℕ) (v : RxVars) (s : Session P C) → Fresh m v s → D.pending s.port ≤ m
  Fresh-left m v s (inl few) = omega (arith, few)
  Fresh-left m v s (inr (less, quiet)) = less

  -- A byte is read and stored, or none.
  pub read-Fresh :
      (m : ℕ) (v : RxVars) (s : Session P C)
      → Fresh m v s
      → Ends
          (λ r s'. Fresh m v s' × ((1 + D.pending s'.port ≤ m) ⊎ (r.bytes ≡ [])))
          (rcv h 1 (pos 10) false s)
  read-Fresh m v s (inl few) =
      weaken (rcv_drains D (m - 1) 1 (pos 10) false s (omega (arith, few))) (λ r s' (drained, same).
        let less = Drained-left D 1 (m - 1) r s' drained in
        let fewer : 1 + D.pending s'.port ≤ m = omega (arith, few, less) in (inl fewer, inl fewer))
  read-Fresh m v s (inr (less, quiet)) =
      weaken (rcv_drains D m 1 (pos 10) false s less)
        (λ r s' (drained, same). came r.bytes r.status s' drained same)
    where
      came :
          (bytes : List ℕ) (status : SerialStatus) (s' : Session P C)
          → ((status ≡ serial_no_errors) × (1 + D.pending s'.port ≤ m))
            ⊎ ((status ≡ serial_timeout) × (length bytes + D.pending s'.port ≤ m))
          → s'.buffer ≡ s.buffer
          → Fresh m v s' × ((1 + D.pending s'.port ≤ m) ⊎ (bytes ≡ []))
      came bytes status s' (inl (e, few)) same = (inl few, inl few)
      came [] status s' (inr (e, few)) same =
          (inr (omega (arith, few), subst (λ t. IsQuiet v (head_of t)) (sym same) quiet), inr refl)
      came (x ∷ xs) status s' (inr (e, few)) same =
          let fewer : 1 + D.pending s'.port ≤ m = omega (arith, few) in (inl fewer, inl fewer)

  pub store-Fresh :
      (m : ℕ) (v : RxVars) (bytes : List ℕ) (s : Session P C)
      → Fresh m v s
      → (1 + D.pending s.port ≤ m) ⊎ (bytes ≡ [])
      → Ends (λ u s'. Fresh m v s') (store 0 bytes s)
  store-Fresh m v bytes s fresh (inl few) =
      weaken (store_keeps (λ p. 1 + D.pending p ≤ m) 0 bytes s few) (λ u s' few'. inl few')
  store-Fresh m v bytes s (inl few) (inr e) =
      weaken (store_keeps (λ p. 1 + D.pending p ≤ m) 0 bytes s few) (λ u s' few'. inl few')
  store-Fresh m v bytes s (inr (less, quiet)) (inr e) = rw e (
      weaken (store_nothing (λ p. D.pending p ≤ m) s less)
        (λ u s' (same, less'). inr (less', subst (λ t. IsQuiet v (head_of t)) (sym same) quiet)))

  pub load-Fresh :
      (m : ℕ) (v : RxVars) (s : Session P C)
      → Fresh m v s
      → Ends (λ c s'. Fresh m v s' × ((1 + D.pending s'.port ≤ m) ⊎ IsQuiet v c)) (load_byte 0 s)
  load-Fresh m v s (inl few) =
      weaken (load_byte_keeps (λ p. 1 + D.pending p ≤ m) 0 s few)
        (λ c s' few'. (inl few', inl few'))
  load-Fresh m v s (inr (less, quiet)) =
      weaken (load_first (λ p. D.pending p ≤ m) s less) (λ c s' (e, same, less'). (
        inr (less', subst (λ t. IsQuiet v (head_of t)) (sym same) quiet),
        inr (subst (IsQuiet v) (sym e) quiet),
      ))

  pub Fresh-moved :
      (m : ℕ) (v v' : RxVars) (s : Session P C)
      → (v'.expected_start_char_1 ≡ v.expected_start_char_1)
      → (v'.expected_start_char_2 ≡ v.expected_start_char_2)
      → Fresh m v s
      → Fresh m v' s
  Fresh-moved m v v' s e e' (inl few) = inl few
  Fresh-moved m v v' s e e' (inr (less, quiet)) =
      inr (less, moved-IsQuiet v v' (head_of s.buffer) e e' quiet)

  pub Fresh-kept :
      (m : ℕ) (v : RxVars) (s s' : Session P C)
      → D.pending s'.port ≤ D.pending s.port
      → s'.buffer ≡ s.buffer
      → Fresh m v s
      → Fresh m v s'
  Fresh-kept m v s s' less same (inl few) = inl (omega (arith, few))
  Fresh-kept m v s s' less same (inr (few, quiet)) =
      inr (omega (arith, few), subst (λ t. IsQuiet v (head_of t)) (sym same) quiet)

  -- A character that is not quiet has come off the line.
  pub came_off :
      (m : ℕ) (v : RxVars) (c : ℕ) (s : Session P C)
      → (1 + D.pending s.port ≤ m) ⊎ IsQuiet v c
      → (((c == v.expected_start_char_2) || (c == v.expected_start_char_1)) ≡ true)
        ⊎ ((c == eot) ≡ true)
      → 1 + D.pending s.port ≤ m
  came_off m v c s (inl few) found = few
  came_off m v c s (inr (quiet, no_end)) (inl start) = cc
  came_off m v c s (inr (quiet, no_end)) (inr end) = cc
