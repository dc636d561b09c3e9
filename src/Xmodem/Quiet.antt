-- ===== src/Xmodem/Quiet.antt =====
-- When `purge` of src/xmodem.c ends.
use libmodem.Prelude.{ℕ, zero, suc, ◌<◌, ◌≡◌, refl, true, ◌⊎◌, inl, inr, arith}
use libmodem.Prelude.Int.{pos, negsuc}
use libmodem.Serial.{serial_rcv}
use libmodem.Serial.Primitives.{Serprim, Handle}
use libmodem.Xmodem.Session.{Session, ok, out_of_fuel, rcv}
use libmodem.Xmodem.Wait.{purge}

module _ {P : Serprim} {C : Type 0} (h : Handle) where
  -- On a valid handle, if each read of a byte either times out or leaves fewer bytes to come, then
  -- with more fuel than bytes to come `purge` ends, and keeps the buffer and the channel.
  pub purge-drains :
      (pending : P.Port → ℕ)
      → P.handle_valid h ≡ true
      → ((s : P.Port)
          → let r = P.read_data h 1 (pos 1) s in
            (r.code ≡ negsuc 0) ⊎ ((r.code ≡ pos 0) × (pending r.port < pending s)))
      → (fuel : ℕ) (s : Session P C) → pending s.port < fuel
      → (port : P.Port) × (purge h fuel s ≡ ok tt (record s { port = port }))
  unfolding purge rcv serial_rcv
  purge-drains pending valid reads zero s enough = absurd (omega arith)
  purge-drains pending valid reads (suc fuel) s enough = elim (reads s.port) [
    | inl late ↦ ((P.read_data h 1 (pos 1) s.port).port, rw (valid, late) refl)
    | inr (got, fewer) ↦
        let next = record s { port = (P.read_data h 1 (pos 1) s.port).port } in
        let (port, rest) = purge-drains pending valid reads fuel next (omega (arith, fewer)) in
        (port, rw (valid, got) rest)
  ]

  -- On a valid handle whose reads all report a hardware error, no fuel is enough for `purge`.
  pub purge-stuck :
      P.handle_valid h ≡ true
      → ((s : P.Port) → (P.read_data h 1 (pos 1) s).code ≡ negsuc 1)
      → (fuel : ℕ) (s : Session P C) → purge h fuel s ≡ out_of_fuel
  unfolding purge rcv serial_rcv
  purge-stuck valid broken zero s = refl
  purge-stuck valid broken (suc fuel) s =
      rw (valid, broken s.port)
        (purge-stuck valid broken fuel (record s { port = (P.read_data h 1 (pos 1) s.port).port }))
