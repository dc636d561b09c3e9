-- ===== src/Xmodem/Draining.antt =====
-- A line on which only so many bytes come and the hardware has no errors, and what the steps of a
-- session leave on it.
use libmodem.Modem.{
  ModemError, modem_no_errors, bad_crc_chksum, sent_can, packet_mismatch, channel_error,
  undefined_error, modem_hw_error, modem_timeout, not_implemented, serial_to_modem_error,
}
use libmodem.Prelude.{
  ℕ, ◌+◌, ◌≤◌, ◌≡◌, ◌≢◌, ◌⊎◌, inl, inr, refl, ap, Bool, true, false, Option-cases, List, length,
  arith,
}
use libmodem.Prelude.Int.{ℤ, pos, negsuc}
use libmodem.Serial.{
  Received, serial_no_errors, serial_timeout, serial_snd, serial_rcv, serial_flush, clamp_timeout,
  read_status,
}
use libmodem.Serial.Primitives.{Serprim, Handle}
use libmodem.Xmodem.Returns.{Returns, returns, faults, bind}
use libmodem.Xmodem.Session.{
  Session, Run, slice, overwrite, load, load_byte, store, snd, flush, rcv,
}

-- Of a handle that is valid, so many bytes are still to come. A read gives all the bytes that it
-- asks for, or times out with what there was; neither a write nor a flush brings more.
pub record IsDraining (P : Serprim) (h : Handle) : Type 0 where
  pub pending : P.Port → ℕ
  pub valid : P.handle_valid h ≡ true
  pub write : (xs : List ℕ) (s : P.Port) → pending (P.write_data h xs s).1 ≤ pending s
  pub flush : (s : P.Port) → pending (P.flush_device h s).1 ≤ pending s
  pub read :
      (n : ℕ) (t : ℤ) (s : P.Port)
      → let r = P.read_data h n t s in
        ((r.code ≡ pos 0) × (n + pending r.port ≤ pending s))
        ⊎ ((r.code ≡ negsuc 0) × (length r.bytes + pending r.port ≤ pending s))
  pub timed_read :
      (n : ℕ) (t : ℤ) (s : P.Port)
      → let r = P.read_data_get_elapsed_time h n t s in
        ((r.code ≡ pos 0) × (n + pending r.port ≤ pending s))
        ⊎ ((r.code ≡ negsuc 0) × (length r.bytes + pending r.port ≤ pending s))

-- No error of the hardware, and not the code that the receiver has for one.
abbrev pub IsSoft : ModemError → Type 0
IsSoft modem_no_errors = Unit
IsSoft bad_crc_chksum = Unit
IsSoft sent_can = Unit
IsSoft packet_mismatch = Unit
IsSoft channel_error = Unit
IsSoft modem_timeout = Unit
IsSoft undefined_error = ⊥
IsSoft modem_hw_error = ⊥
IsSoft not_implemented = ⊥

-- A run that ends: it has a value, returns early with such a code, or reaches out of the buffer.
abbrev pub Ends : {S A : Type 0} → (A → S → Type 0) → Run S A → Type 0
Ends Q r = Returns Q (λ e s. IsSoft e) ⊥ (Unit {0}) r

-- The effects on the buffer leave the port alone.
module _ {P : Serprim} {C : Type 0} (J : P.Port → Type 0) where
  pub load_keeps :
      (offset size : ℕ) (s : Session P C)
      → J s.port
      → Ends (λ xs s'. J s'.port) (load offset size s)
  unfolding load
  load_keeps offset size s j = elim (Option-cases (slice s.buffer offset size)) [
    | inl e ↦ rw (e, load) (faults tt)
    | inr (xs, e) ↦ rw (e, load) (returns j)
  ]

  pub load_byte_keeps :
      (offset : ℕ) (s : Session P C) → J s.port → Ends (λ x s'. J s'.port) (load_byte offset s)
  unfolding load_byte
  load_byte_keeps offset s j = bind (load_keeps offset 1 s j) (λ xs s' j'. returns j')

  pub store_keeps :
      (offset : ℕ) (octets : List ℕ) (s : Session P C)
      → J s.port
      → Ends (λ u s'. J s'.port) (store offset octets s)
  unfolding store
  store_keeps offset octets s j = elim (Option-cases (overwrite s.buffer offset octets)) [
    | inl e ↦ rw (e, store) (faults tt)
    | inr (xs, e) ↦ rw (e, store) (returns j)
  ]

module _ {P : Serprim} {h : Handle} (D : IsDraining P h) {C : Type 0} where
  abbrev pub Left : ℕ → Session P C → Type 0
  Left m s = D.pending s.port ≤ m

  -- A read of `n` bytes, where `m` were to come.
  abbrev pub Drained : ℕ → ℕ → Received P.Port → Session P C → Type 0
  Drained n m r s =
      ((r.status ≡ serial_no_errors) × (n + D.pending s.port ≤ m))
      ⊎ ((r.status ≡ serial_timeout) × (length r.bytes + D.pending s.port ≤ m))

  pub Drained-left :
      (n m : ℕ) (r : Received P.Port) (s : Session P C) → Drained n m r s → D.pending s.port ≤ m
  Drained-left n m r s (inl (e, less)) = omega (arith, less)
  Drained-left n m r s (inr (e, less)) = omega (arith, less)

  pub Drained-known :
      (n m : ℕ) (r : Received P.Port) (s : Session P C)
      → Drained n m r s
      → (r.status ≡ serial_no_errors) ⊎ (r.status ≡ serial_timeout)
  Drained-known n m r s (inl (e, less)) = inl e
  Drained-known n m r s (inr (e, less)) = inr e

  pub Drained-IsSoft :
      (n m : ℕ) (r : Received P.Port) (s : Session P C)
      → Drained n m r s
      → IsSoft (serial_to_modem_error r.status)
  unfolding serial_to_modem_error
  Drained-IsSoft n m r s (inl (e, less)) = rw e tt
  Drained-IsSoft n m r s (inr (e, less)) = rw e tt

  pub Drained-received :
      (n m : ℕ) (r : Received P.Port) (s : Session P C)
      → Drained n m r s
      → r.status ≡ serial_no_errors
      → n + D.pending s.port ≤ m
  Drained-received n m r s (inl (e, less)) good = less
  Drained-received n m r s (inr (e, less)) good = cc

  pub Drained-early :
      (n m : ℕ) (r : Received P.Port) (s : Session P C)
      → Drained n m r s
      → r.status ≢ serial_timeout
      → n + D.pending s.port ≤ m
  Drained-early n m r s (inl (e, less)) early = less
  Drained-early n m r s (inr (e, less)) early = absurd (early e)

  pub snd_drains :
      (m : ℕ) (octets : List ℕ) (s : Session P C)
      → Left m s
      → Ends (λ a s'. Left m s' × (s'.buffer ≡ s.buffer)) (snd h octets s)
  unfolding snd serial_snd
  snd_drains m octets s less = rw D.valid (returns (omega (arith, D.write octets s.port), refl))

  pub flush_drains : (m : ℕ) (s : Session P C) → Left m s → Ends (λ a s'. Left m s') (flush h s)
  unfolding flush serial_flush
  flush_drains m s less = rw D.valid (returns (omega (arith, D.flush s.port)))

  pub rcv_drains :
      (m n : ℕ) (timeout : ℤ) (timed : Bool) (s : Session P C)
      → Left m s
      → Ends (λ r s'. Drained n m r s' × (s'.buffer ≡ s.buffer)) (rcv h n timeout timed s)
  unfolding rcv serial_rcv
  rcv_drains m n timeout true s less =
      rw D.valid (elim (D.timed_read n (clamp_timeout timeout) s.port) [
        | inl (e, few) ↦ returns (inl (ap read_status e, omega (arith, few)), refl)
        | inr (e, few) ↦ returns (inr (ap read_status e, omega (arith, few)), refl)
      ])
  rcv_drains m n timeout false s less = rw D.valid (elim (D.read n (clamp_timeout timeout) s.port) [
    | inl (e, few) ↦ returns (inl (ap read_status e, omega (arith, few)), refl)
    | inr (e, few) ↦ returns (inr (ap read_status e, omega (arith, few)), refl)
  ])
