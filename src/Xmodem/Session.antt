-- ===== src/Xmodem/Session.antt =====
-- The state that an XMODEM function works on, and its effects: an early `return`, an access to the
-- packet buffer out of range, a loop that runs out of fuel.
use libmodem.Modem.{ModemError}
use libmodem.Prelude.{
  ℕ, ◌+◌, ◌-◌, ◌^◌, ◌%◌, Bool, Option, none, some, List, [], ◌∷◌, ◌++◌, length, take, drop, leb,
  if◌then◌else◌,
}
use libmodem.Prelude.Int.{ℤ, pos, negsuc}
use libmodem.Serial.{SerialStatus, Received, serial_snd, serial_rcv, serial_flush}
use libmodem.Serial.Primitives.{Serprim, Handle}

pub data Run (S A : Type 0) : Type 0 where
  ok : A → S → Run S A
  stop : ModemError → S → Run S A
  fault : Run S A
  out_of_fuel : Run S A

-- The caller's packet buffer, the state behind `chan_state` and the platform.
pub record Session (P : Serprim) (C : Type 0) : Type 0 where
  pub buffer : List ℕ
  pub chan : C
  pub port : P.Port

abbrev pub and_then : {S A B : Type 0} → Run S A → (A → S → Run S B) → Run S B
and_then (ok a s) k = k a s
and_then (stop e s) k = stop e s
and_then fault k = fault
and_then out_of_fuel k = out_of_fuel

infixl 5 ◌>>=◌ ◌>>◌
abbrev pub ◌>>=◌ : {S A B : Type 0} → (S → Run S A) → (A → S → Run S B) → S → Run S B
◌>>=◌ m k s = and_then (m s) k

abbrev pub ◌>>◌ : {S A B : Type 0} → (S → Run S A) → (S → Run S B) → S → Run S B
◌>>◌ m k s = and_then (m s) (λ _. k)

-- The end of a function: an early `return` gives its value to the caller.
abbrev pub returned : {S : Type 0} → Run S ModemError → Run S ModemError
returned (ok e s) = ok e s
returned (stop e s) = ok e s
returned fault = fault
returned out_of_fuel = out_of_fuel

-- `size` elements from `offset` on.
abbrev pub slice : List ℕ → ℕ → ℕ → Option (List ℕ)
slice xs offset size =
    if leb (offset + size) (length xs) then some (take size (drop offset xs)) else none

abbrev pub overwrite : List ℕ → ℕ → List ℕ → Option (List ℕ)
overwrite xs offset ys =
    if leb (offset + length ys) (length xs)
    then some (take offset xs ++ (ys ++ drop (offset + length ys) xs))
    else none

-- Conversions of a C `int` to an unsigned type of `w` bits, and back.
abbrev pub to_unsigned : ℕ → ℤ → ℕ
to_unsigned w (pos n) = n % 2 ^ w
to_unsigned w (negsuc n) = 2 ^ w - 1 - n % 2 ^ w

abbrev pub to_signed : ℕ → ℕ → ℤ
to_signed w n = if leb (2 ^ (w - 1)) n then negsuc (2 ^ w - n - 1) else pos n

abbrev pub head_of : List ℕ → ℕ
head_of [] = 0
head_of (x ∷ xs) = x

module _ {P : Serprim} {C : Type 0} where
  abbrev pub pure : {A : Type 0} → A → Session P C → Run (Session P C) A
  pure a s = ok a s

  -- `return e` inside of a loop.
  abbrev pub return : {A : Type 0} → ModemError → Session P C → Run (Session P C) A
  return e s = stop e s

  unfoldable pub load : ℕ → ℕ → Session P C → Run (Session P C) (List ℕ)
  load offset size s = elim (slice s.buffer offset size) [ none ↦ fault | some xs ↦ ok xs s ]

  unfoldable pub store : ℕ → List ℕ → Session P C → Run (Session P C) (Unit {0})
  store offset ys s = elim (overwrite s.buffer offset ys) [
    | none ↦ fault
    | some xs ↦ ok tt (record s { buffer = xs })
  ]

  unfoldable pub load_byte : ℕ → Session P C → Run (Session P C) ℕ
  unfolding load
  load_byte offset s = and_then (load offset 1 s) (λ xs. ok (head_of xs))

  unfoldable pub snd : Handle → List ℕ → Session P C → Run (Session P C) SerialStatus
  snd h octets s =
      let (status, port) = serial_snd P octets h s.port in ok status (record s { port = port })

  unfoldable pub flush : Handle → Session P C → Run (Session P C) SerialStatus
  flush h s = let (status, port) = serial_flush P h s.port in ok status (record s { port = port })

  unfoldable pub rcv : Handle → ℕ → ℤ → Bool → Session P C → Run (Session P C) (Received P.Port)
  rcv h num_bytes timeout timed s =
      let r = serial_rcv P num_bytes timeout timed h s.port in ok r (record s { port = r.port })
