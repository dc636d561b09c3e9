-- ===== src/Platform/Hdmi2usb/Loop.antt =====
-- The loop of `read_data` in src/hdmi2usb/serprim.c, on an SoC on which every wait ends.
use libmodem.Platform.Hdmi2usb.{Soc, stored, read_loop}
use libmodem.Prelude.{
  ℕ, zero, suc, ◌+◌, ◌≤◌, ◌<◌, ◌≡◌, refl, ap, subst, ◌⊎◌, inl, inr, true, false, Bool-cases, Option,
  some, List, [], ◌∷◌, length, leb, arith,
}
use libmodem.Prelude.Int.{ℤ, pos, negsuc}
use libmodem.Serial.Primitives.{Reading}

-- Every wait ends, whatever its period: each `elapsed` that is not over leaves fewer to come, and
-- the UART does not turn it back. An `elapsed` that measures within a turn of the timer does this
-- for shorter periods alone; Turn is about the longer ones. What the UART has received is finite,
-- and each read takes of it.
pub record IsRunning (K : Soc) : Type 0 where
  pub left : ℤ → ℤ → K.State → ℕ
  pub ticks :
      (start period : ℤ) (s : K.State)
      → let e = K.elapsed start period s in
        e.expired ≡ false → left e.last_event period e.state < left start period s
  pub poll_keeps :
      (start period : ℤ) (s : K.State)
      → left start period (K.uart_read_nonblock s).1 ≤ left start period s
  pub read_keeps :
      (start period : ℤ) (s : K.State) → left start period (K.uart_read s).1 ≤ left start period s
  pub pending : K.State → ℕ
  pub takes :
      (s : K.State)
      → let polled = K.uart_read_nonblock s in
        polled.0 ≡ true → pending (K.uart_read polled.1).1 < pending s

-- What the return value says of the bytes that are stored where there were `count` before.
abbrev pub Counted : ℕ → ℕ → ℤ → List ℕ → Type 0
Counted num_bytes count code octets =
    ((code ≡ pos 0)
      × (num_bytes ≤ count + length octets)
      × (count < num_bytes → count + length octets ≡ num_bytes))
    ⊎ ((code ≡ negsuc 0) × (count < num_bytes → count + length octets < num_bytes))

-- A run of the loop that ends, and leaves what `J` says of the bytes that were read and the state.
abbrev pub Finishes : {S : Type 0} → (ℕ → S → Type 0) → ℕ → ℕ → Option (Reading S) → Type 0
Finishes {S} J num_bytes count o =
    (r : Reading S) × (o ≡ some r)
    × J (count + length r.bytes) r.port
    × Counted num_bytes count r.code r.bytes

not_over : (n count : ℕ) → leb n (count + 1) ≡ false → count + 1 < n
not_over n count z = ground arith

over : (n count : ℕ) → leb n (count + 1) ≡ true → n ≤ count + 1
over n count z = ground arith

module _ {S : Type 0} (J : ℕ → S → Type 0) (n count : ℕ) where
  stops :
      (s : S)
      → J count s
      → Finishes J n count (some (record { code = negsuc 0; bytes = []; port = s }))
  stops s j = (_, refl, subst (λ k. J k s) (omega arith) j, inr (refl, λ below. omega arith))

  fills :
      (s : S) (c : ℕ)
      → n ≤ count + 1
      → J (count + 1) s
      → Finishes J n count (stored c (some (record { code = pos 0; bytes = []; port = s })))
  fills s c last_one j = (_, refl, j, inl (refl, last_one, λ below. omega arith))

  goes_on :
      (c : ℕ) (o : Option (Reading S))
      → count + 1 < n
      → Finishes J n (count + 1) o
      → Finishes J n count (stored c o)
  goes_on c o below (r, e, j, inl (f, g, h)) = (
    record r { bytes = c ∷ r.bytes },
    ap (stored c) e,
    subst (λ k. J k r.port) (omega arith) j,
    inl (f, omega arith, λ few. omega (arith, h below)),
  )
  goes_on c o below (r, e, j, inr (f, h)) = (
    record r { bytes = c ∷ r.bytes },
    ap (stored c) e,
    subst (λ k. J k r.port) (omega arith) j,
    inr (f, λ few. omega (arith, h below)),
  )

-- What is kept by the steps of a round is kept by the loop, which ends.
module _ (K : Soc) (L : IsRunning K) (J : ℕ → K.State → Type 0)
    (waits : (count : ℕ) (start period : ℤ) (s : K.State)
      → J count s
      → J count (K.elapsed start period s).state)
    (polls : (count : ℕ) (s : K.State) → J count s → J count (K.uart_read_nonblock s).1)
    (reads : (count : ℕ) (s : K.State)
      → let polled = K.uart_read_nonblock s in
        polled.0 ≡ true → J count s → J (count + 1) (K.uart_read polled.1).1) where
  pub read_loop-Finishes :
      (fuel n : ℕ) (period : ℤ) (count : ℕ) (start : ℤ) (s : K.State)
      → J count s
      → L.left start period s < fuel
      → Finishes J n count (read_loop K fuel n period count start s)
  unfolding read_loop
  read_loop-Finishes zero n period count start s j enough = absurd (omega arith)
  read_loop-Finishes (suc fuel) n period count start s j enough =
      let e = K.elapsed start period s in
      let polled = (K.uart_read_nonblock e.state).1 in
      let after = (K.uart_read polled).1 in
      let j1 = waits count start period s j in
      elim (Bool-cases e.expired) [
        | inl x ↦ rw (x, read_loop) (stops J n count e.state j1)
        | inr x ↦
            let left_polled : L.left e.last_event period polled < fuel =
              omega (arith, L.ticks start period s x, L.poll_keeps e.last_event period e.state) in
            let left_after : L.left e.last_event period after < fuel =
              omega (arith, left_polled, L.read_keeps e.last_event period polled) in
            elim (Bool-cases (K.uart_read_nonblock e.state).0) [
              | inr y ↦
                  rw (x, read_loop, y)
                    (read_loop-Finishes fuel n period count e.last_event polled
                      (polls count e.state j1) left_polled)
              | inl y ↦
                  let j2 = reads count e.state y j1 in
                  elim (Bool-cases (leb n (count + 1))) [
                    | inl z ↦ rw (x, read_loop, y, z) (fills J n count after _ (over n count z) j2)
                    | inr z ↦
                        rw (x, read_loop, y, z)
                          (goes_on J n count _ _ (not_over n count z) (
                            read_loop-Finishes fuel n period (count + 1) e.last_event after j2
                              left_after))
                  ]
            ]
      ]
