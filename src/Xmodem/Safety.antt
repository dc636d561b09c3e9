-- ===== src/Xmodem/Safety.antt =====
-- The effects of a session stay inside of a buffer whose length they keep, on every platform whose
-- reads of a byte or more store no more than they are asked for.
use libmodem.Modem.{ModemError}
use libmodem.Prelude.{
  ℕ, ◌+◌, ◌≤◌, ◌<◌, ◌≡◌, Bool, true, false, Bool-cases, inl, inr, List, ◌++◌, length, take, drop,
  leb, arith, length-append, length-take, length-drop,
}
use libmodem.Prelude.Int.{ℤ}
use libmodem.Serial.{Received, serial_rcv, clamp_timeout}
use libmodem.Serial.Primitives.{Serprim, Handle}
use libmodem.Xmodem.Returns.{Returns, returns, bind}
use libmodem.Xmodem.Session.{Session, load, load_byte, store, snd, flush, rcv}

-- What serprim.h documents of a read: `data` holds at most `num_bytes` bytes of its own. XMODEM
-- asks for one byte at least.
pub record IsBounded (P : Serprim) : Type 0 where
  pub read :
      (h : Handle) (n : ℕ) (t : ℤ) (s : P.Port) → 1 ≤ n → length (P.read_data h n t s).bytes ≤ n
  pub timed_read :
      (h : Handle) (n : ℕ) (t : ℤ) (s : P.Port)
      → 1 ≤ n
      → length (P.read_data_get_elapsed_time h n t s).bytes ≤ n

leb_of_le : (a b : ℕ) → a ≤ b → leb a b ≡ true
leb_of_le a b h = ground arith

-- The buffer is `N` bytes long.
abbrev pub Holds : {P : Serprim} {C A : Type 0} → ℕ → A → Session P C → Type 0
Holds N a s = length s.buffer ≡ N

module _ {P : Serprim} {C : Type 0} {E : ModemError → Session P C → Type 0} {Spent Fault : Type 0}
    (N : ℕ) where
  pub load_safe :
      (offset size : ℕ) (s : Session P C)
      → length s.buffer ≡ N
      → offset + size ≤ N
      → Returns (Holds N) E Spent Fault (load offset size s)
  unfolding load
  load_safe offset size s e fits =
      rw (leb_of_le (offset + size) (length s.buffer) (omega arith), load) (returns e)

  pub load_byte_safe :
      (offset : ℕ) (s : Session P C)
      → length s.buffer ≡ N
      → offset < N
      → Returns (Holds N) E Spent Fault (load_byte offset s)
  unfolding load_byte
  load_byte_safe offset s e fits =
      bind (load_safe offset 1 s e (omega arith)) (λ xs s' e'. returns e')

  pub store_safe :
      (offset : ℕ) (octets : List ℕ) (s : Session P C)
      → length s.buffer ≡ N
      → offset + length octets ≤ N
      → Returns (Holds N) E Spent Fault (store offset octets s)
  unfolding store
  store_safe offset octets s e fits =
      let k : ℕ = offset + length octets in
      rw (leb_of_le k (length s.buffer) (omega arith), store)
        (returns (
          omega (
            arith,
            length-append {0} (take offset s.buffer) (octets ++ drop k s.buffer),
            length-append {0} octets (drop k s.buffer),
            length-take {0} offset s.buffer,
            length-drop {0} k s.buffer,
          )))

  pub snd_safe :
      (h : Handle) (octets : List ℕ) (s : Session P C)
      → length s.buffer ≡ N
      → Returns (Holds N) E Spent Fault (snd h octets s)
  unfolding snd
  snd_safe h octets s e = returns e

  pub flush_safe :
      (h : Handle) (s : Session P C)
      → length s.buffer ≡ N
      → Returns (Holds N) E Spent Fault (flush h s)
  unfolding flush
  flush_safe h s e = returns e

module _ {P : Serprim} (B : IsBounded P) where
  serial_rcv-bytes :
      (n : ℕ) (timeout : ℤ) (timed : Bool) (h : Handle) (s : P.Port)
      → 1 ≤ n
      → length (serial_rcv P n timeout timed h s).bytes ≤ n
  unfolding serial_rcv
  serial_rcv-bytes n timeout true h s some_bytes = elim (Bool-cases (P.handle_valid h)) [
    | inl e ↦ rw e (B.timed_read h n (clamp_timeout timeout) s some_bytes)
    | inr e ↦ rw e (omega arith)
  ]
  serial_rcv-bytes n timeout false h s some_bytes = elim (Bool-cases (P.handle_valid h)) [
    | inl e ↦ rw e (B.read h n (clamp_timeout timeout) s some_bytes)
    | inr e ↦ rw e (omega arith)
  ]

  pub rcv_safe :
      {C : Type 0} {E : ModemError → Session P C → Type 0} {Spent Fault : Type 0} (N : ℕ)
      (h : Handle) (n : ℕ) (timeout : ℤ) (timed : Bool) (s : Session P C)
      → 1 ≤ n
      → length s.buffer ≡ N
      → Returns
          (λ (r : Received P.Port) s'. (length s'.buffer ≡ N) × (length r.bytes ≤ n))
          E
          Spent
          Fault
          (rcv h n timeout timed s)
  unfolding rcv
  rcv_safe N h n timeout timed s some_bytes e =
      returns (e, serial_rcv-bytes n timeout timed h s.port some_bytes)
