-- ===== src/Xmodem/Rx/Patience.antt =====
-- The wait of `xmodem_rx` for the first character of a packet ends on every platform, whatever
-- arrives: the rounds that it is given are enough.
use libmodem.Modem.{eot}
use libmodem.Prelude.{
  ℕ, zero, suc, ◌+◌, ◌%◌, ◌^◌, ◌≤◌, ◌≡◌, refl, ap, ◌∙◌, Bool, true, false, ◌||◌, ltb, ◌==◌,
  if◌then◌else◌, arith, Bool-cases, Option-cases, inl, inr, List,
}
use libmodem.Prelude.Int.{ℤ}
use libmodem.Serial.{SerialStatus, serial_no_errors, serial_timeout, serial_hw_error}
use libmodem.Serial.Primitives.{Serprim, Handle}
use libmodem.Xmodem.Rx.{RxVars, fallback, wait_rounds, first_char_loop}
use libmodem.Xmodem.Rx.Counter.{counts_on}
use libmodem.Xmodem.Session.{
  Session, Run, ok, stop, fault, out_of_fuel, and_then, load, load_byte, store, snd, rcv, slice,
  overwrite,
}

-- A run that does not end for want of fuel.
abbrev pub finishes : {S A : Type 0} → Run S A → Bool
finishes out_of_fuel = false
finishes _ = true

and_then-finishes :
    {S A B : Type 0} (r : Run S A) (k : A → S → Run S B)
    → finishes r ≡ true
    → ((a : A) (s : S) → finishes (k a s) ≡ true)
    → finishes (and_then r k) ≡ true
and_then-finishes (ok a s) k first rest = rest a s
and_then-finishes (stop e s) k first rest = refl
and_then-finishes fault k first rest = refl
and_then-finishes out_of_fuel k first rest = first

branch-finishes :
    {S A : Type 0} (b : Bool) (m m' : S → Run S A) (s : S)
    → finishes (m s) ≡ true
    → finishes (m' s) ≡ true
    → finishes ((if b then m else m') s) ≡ true
branch-finishes true m m' s p q = p
branch-finishes false m m' s p q = q

abbrev on_timeout : {B : Type 0} → SerialStatus → B → B → B
on_timeout status m m' = elim status [ serial_timeout ↦ m | other ↦ m' ]

status-finishes :
    {S A : Type 0} (status : SerialStatus) (m m' : S → Run S A) (s : S)
    → finishes (m s) ≡ true
    → finishes (m' s) ≡ true
    → finishes (on_timeout status m m' s) ≡ true
status-finishes serial_no_errors m m' s p q = q
status-finishes serial_timeout m m' s p q = p
status-finishes serial_hw_error m m' s p q = q

fallback-error_count : (v : RxVars) → (fallback v).error_count ≡ v.error_count
unfolding fallback
fallback-error_count v = ground arith

not_late : (a : ℕ) → ltb 11 a ≡ false → a ≤ 11
not_late a h = ground arith

module _ {P : Serprim} {C : Type 0} where
  load-finishes : (offset size : ℕ) (s : Session P C) → finishes (load offset size s) ≡ true
  unfolding load
  load-finishes offset size s = elim (Option-cases (slice s.buffer offset size)) [
    | inl e ↦ rw (e, finishes) refl
    | inr (xs, e) ↦ rw (e, finishes) refl
  ]

  store-finishes :
      (offset : ℕ) (octets : List ℕ) (s : Session P C) → finishes (store offset octets s) ≡ true
  unfolding store
  store-finishes offset octets s = elim (Option-cases (overwrite s.buffer offset octets)) [
    | inl e ↦ rw (e, finishes) refl
    | inr (xs, e) ↦ rw (e, finishes) refl
  ]

  load_byte-finishes : (offset : ℕ) (s : Session P C) → finishes (load_byte offset s) ≡ true
  unfolding load_byte
  load_byte-finishes offset s =
      and_then-finishes (load offset 1 s) _ (load-finishes offset 1 s) (λ xs s'. refl)

  snd-finishes :
      (device : Handle) (octets : List ℕ) (s : Session P C) → finishes (snd device octets s) ≡ true
  unfolding snd
  snd-finishes device octets s = refl

  rcv-finishes :
      (device : Handle) (n : ℕ) (timeout : ℤ) (timed : Bool) (s : Session P C)
      → finishes (rcv device n timeout timed s) ≡ true
  unfolding rcv
  rcv-finishes device n timeout timed s = refl

  rounds_lem :
      (device : Handle) (fuel tries : ℕ) (v : RxVars) (s : Session P C)
      → 16 ≤ P.int_bits
      → (v.error_count + 1) % 2 ^ P.int_bits ≡ tries
      → tries ≤ 12
      → 13 ≤ fuel + tries
      → finishes (first_char_loop device fuel v s) ≡ true
  unfolding first_char_loop
  rounds_lem device zero tries v s wide e few enough = absurd (omega arith)
  rounds_lem device (suc fuel) tries v s wide e few enough =
      let w = P.int_bits in
      let count : ℕ = (v.error_count + 1) % 2 ^ w in
      let counted = record v { error_count = count } in
      let v' = fallback counted in
      elim (Bool-cases (ltb 11 count)) [
        | inl late ↦
            rw late (and_then-finishes (snd device _ s) _ (snd-finishes device _ s) (λ a s'. refl))
        | inr early ↦
            let left : tries ≤ 11 = omega (arith, not_late count early) in
            let next : (s' : Session P C) → finishes (first_char_loop device fuel v' s') ≡ true =
              λ s'.
                rounds_lem device fuel (suc tries) v' s' wide
                  (ap (λ (t : ℕ). (t + 1) % 2 ^ w) (fallback-error_count counted ∙ e)
                    ∙ counts_on w tries wide left)
                  (omega arith) (omega arith) in
            rw early (
              and_then-finishes (rcv device 1 _ false s) _ (rcv-finishes device 1 _ false s)
                (λ r s1.
                  and_then-finishes (store 0 r.bytes s1) _ (store-finishes 0 r.bytes s1) (λ u s2.
                    and_then-finishes (load_byte 0 s2) _ (load_byte-finishes 0 s2) (λ c s3.
                      branch-finishes
                        ((c == v'.expected_start_char_2) || (c == v'.expected_start_char_1)) _ _ s3
                        refl
                        (branch-finishes (c == eot) _ _ s3 refl (
                          status-finishes r.status _ _ s3
                            (and_then-finishes (snd device _ s3) _ (snd-finishes device _ s3)
                              (λ a s'. next s'))
                            (next s3)))))))
      ]

  -- On every platform with an `unsigned int` of 16 bits or more, from any value of the counter of
  -- errors at which the next round may begin (-1 to 11), the wait for a first character ends within
  -- the 13 rounds that `xmodem_rx` is given for it: by a character, by a time-out of the transfer,
  -- or by an access out of the buffer.
  pub first_char_loop-finishes :
      (device : Handle) (v : RxVars) (s : Session P C)
      → 16 ≤ P.int_bits
      → (v.error_count + 1) % 2 ^ P.int_bits ≤ 12
      → finishes (first_char_loop device wait_rounds v s) ≡ true
  first_char_loop-finishes device v s wide few =
      rounds_lem device wait_rounds _ v s wide refl few (omega arith)
