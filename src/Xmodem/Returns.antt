-- ===== src/Xmodem/Returns.antt =====
-- How a run ends: a postcondition for its value, one for an early return, and what must hold if it
-- runs out of fuel or reaches out of the buffer.
use libmodem.Modem.{
  ModemError, modem_no_errors, bad_crc_chksum, sent_can, packet_mismatch, channel_error,
  undefined_error, modem_hw_error, modem_timeout, not_implemented,
}
use libmodem.Prelude.{◌≡◌, ◌≢◌, refl, Bool, true, false, if◌then◌else◌}
use libmodem.Prelude.{ℕ}
use libmodem.Prelude.Int.{ℤ, pos, negsuc}
use libmodem.Serial.{SerialStatus, serial_no_errors, serial_timeout, serial_hw_error}
use libmodem.Xmodem.Session.{Run, ok, stop, fault, out_of_fuel, and_then, returned}

pub data Returns {S A : Type 0} (Q : A → S → Type 0) (E : ModemError → S → Type 0)
    (Spent Fault : Type 0) : Run S A → Type 0 where
  returns : {a : A} {s : S} → Q a s → Returns Q E Spent Fault (ok a s)
  stops : {e : ModemError} {s : S} → E e s → Returns Q E Spent Fault (stop e s)
  spent : Spent → Returns Q E Spent Fault out_of_fuel
  faults : Fault → Returns Q E Spent Fault fault

module _ {S A : Type 0} {Q : A → S → Type 0} {E : ModemError → S → Type 0}
    {Spent Fault : Type 0} where
  pub bind :
      {B : Type 0} {R : B → S → Type 0} {r : Run S A} {k : A → S → Run S B}
      → Returns Q E Spent Fault r
      → ((a : A) (s : S) → Q a s → Returns R E Spent Fault (k a s))
      → Returns R E Spent Fault (and_then r k)
  bind (returns q) next = next _ _ q
  bind (stops e) next = stops e
  bind (spent u) next = spent u
  bind (faults v) next = faults v

  pub weaken :
      {R : A → S → Type 0} {r : Run S A}
      → Returns Q E Spent Fault r
      → ((a : A) (s : S) → Q a s → R a s)
      → Returns R E Spent Fault r
  weaken (returns q) next = returns (next _ _ q)
  weaken (stops e) next = stops e
  weaken (spent u) next = spent u
  weaken (faults v) next = faults v

  pub branch :
      (b : Bool) (m m' : S → Run S A) (s : S)
      → (b ≡ true → Returns Q E Spent Fault (m s))
      → (b ≡ false → Returns Q E Spent Fault (m' s))
      → Returns Q E Spent Fault ((if b then m else m') s)
  branch true m m' s p q = p refl
  branch false m m' s p q = q refl

-- A `switch` on a status by whether it is an error.
abbrev when_received : {B : Type 0} → SerialStatus → B → B → B
when_received status m m' = elim status [ serial_no_errors ↦ m | other ↦ m' ]

abbrev when_good : {B : Type 0} → SerialStatus → B → (SerialStatus → B) → B
when_good status m m' = elim status [ serial_no_errors ↦ m | other ↦ m' other ]

-- The same by whether it is a time-out.
abbrev when_late : {B : Type 0} → SerialStatus → B → B → B
when_late status m m' = elim status [ serial_timeout ↦ m | other ↦ m' ]

-- The same by the sign of a number.
abbrev when_negative : {B : Type 0} → ℤ → B → (ℕ → B) → B
when_negative z m m' = elim z [ negsuc n ↦ m | pos n ↦ m' n ]

-- The same by whether a code is an error.
abbrev when_no_error : {B : Type 0} → ModemError → B → (ModemError → B) → B
when_no_error code m m' = elim code [ modem_no_errors ↦ m | other ↦ m' other ]

module _ {S A : Type 0} {Q : A → S → Type 0} {E : ModemError → S → Type 0}
    {Spent Fault : Type 0} where
  pub by_code :
      (code : ModemError) (m : S → Run S A) (m' : ModemError → S → Run S A) (s : S)
      → Returns Q E Spent Fault (m s)
      → Returns Q E Spent Fault (m' code s)
      → Returns Q E Spent Fault (when_no_error code m m' s)
  by_code modem_no_errors m m' s p q = p
  by_code bad_crc_chksum m m' s p q = q
  by_code sent_can m m' s p q = q
  by_code packet_mismatch m m' s p q = q
  by_code channel_error m m' s p q = q
  by_code undefined_error m m' s p q = q
  by_code modem_hw_error m m' s p q = q
  by_code modem_timeout m m' s p q = q
  by_code not_implemented m m' s p q = q

  pub by_sign :
      (z : ℤ) (m : S → Run S A) (m' : ℕ → S → Run S A) (s : S)
      → Returns Q E Spent Fault (m s)
      → ((n : ℕ) → Returns Q E Spent Fault (m' n s))
      → Returns Q E Spent Fault (when_negative z m m' s)
  by_sign (pos n) m m' s p q = q n
  by_sign (negsuc n) m m' s p q = p

  pub by_status :
      (status : SerialStatus) (m m' : S → Run S A) (s : S)
      → (status ≡ serial_no_errors → Returns Q E Spent Fault (m s))
      → (status ≢ serial_no_errors → Returns Q E Spent Fault (m' s))
      → Returns Q E Spent Fault (when_received status m m' s)
  by_status serial_no_errors m m' s p q = p refl
  by_status serial_timeout m m' s p q = q (λ e. cc)
  by_status serial_hw_error m m' s p q = q (λ e. cc)

  pub by_error :
      (status : SerialStatus) (m : S → Run S A) (m' : SerialStatus → S → Run S A) (s : S)
      → Returns Q E Spent Fault (m s)
      → Returns Q E Spent Fault (m' status s)
      → Returns Q E Spent Fault (when_good status m m' s)
  by_error serial_no_errors m m' s p q = p
  by_error serial_timeout m m' s p q = q
  by_error serial_hw_error m m' s p q = q

  pub by_lateness :
      (status : SerialStatus) (m m' : S → Run S A) (s : S)
      → (status ≡ serial_timeout → Returns Q E Spent Fault (m s))
      → (status ≢ serial_timeout → Returns Q E Spent Fault (m' s))
      → Returns Q E Spent Fault (when_late status m m' s)
  by_lateness serial_no_errors m m' s p q = q (λ e. cc)
  by_lateness serial_timeout m m' s p q = p refl
  by_lateness serial_hw_error m m' s p q = q (λ e. cc)

-- The end of a function: its value and its early returns meet one postcondition.
pub returned_lem :
    {S : Type 0} {E : ModemError → S → Type 0} {Spent Fault : Type 0} {r : Run S ModemError}
    → Returns E E Spent Fault r
    → Returns E (λ e s. ⊥) Spent Fault (returned r)
returned_lem (returns q) = returns q
returned_lem (stops e) = returns e
returned_lem (spent u) = spent u
returned_lem (faults v) = faults v

-- A run that neither faults nor runs out of fuel has a value.
pub value_of :
    {S A : Type 0} {Q R : A → S → Type 0} {r : Run S A}
    → Returns Q (λ e s. ⊥) (Unit {0}) ⊥ r
    → Returns R (λ e s. ⊥) ⊥ (Unit {0}) r
    → (a : A) × (s : S) × (r ≡ ok a s) × Q a s × R a s
value_of (returns q) (returns p) = (_, _, refl, q, p)
value_of (stops e) h = absurd e
value_of (spent u) (spent v) = absurd v
value_of (faults u) h = absurd u
