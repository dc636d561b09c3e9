-- ===== src/Platform/Hdmi2usb/Laws.antt =====
-- What the primitives of src/hdmi2usb/serprim.c do.
use libmodem.Platform.Hdmi2usb.{
  Soc, timed, read_data, timeout_cycles, elapsed_seconds, read_data_get_elapsed_time,
}
use libmodem.Platform.Hdmi2usb.Loop.{IsRunning, Counted, read_loop-Finishes}
use libmodem.Prelude.{
  ℕ, ◌-◌, ◌/◌, ◌^◌, ◌≤◌, ◌<◌, ◌≡◌, ap, ◌⊎◌, inl, inr, Option, some, List, length, arith,
}
use libmodem.Prelude.Int.{ℤ, pos, negsuc, ◌-ℤ◌}
use libmodem.Serial.Primitives.{Reading}

-- A read of `num_bytes`: all of them, or fewer and a timeout.
abbrev pub IsAnswer : ℕ → ℤ → List ℕ → Type 0
IsAnswer num_bytes code octets =
    ((code ≡ pos 0) × (length octets ≡ num_bytes))
    ⊎ ((code ≡ negsuc 0) × (length octets < num_bytes))

abbrev pub Reads : {S : Type 0} → ℕ → Option (Reading S) → Type 0
Reads {S} num_bytes o = (r : Reading S) × (o ≡ some r) × IsAnswer num_bytes r.code r.bytes

as_read :
    (n : ℕ) (code : ℤ) (octets : List ℕ) → 1 ≤ n → Counted n 0 code octets → IsAnswer n code octets
as_read n code octets some_bytes (inl (e, f, g)) = inl (e, omega (arith, g some_bytes))
as_read n code octets some_bytes (inr (e, g)) = inr (e, omega (arith, g some_bytes))

module _ (K : Soc) (L : IsRunning K) where
  open L use {left}

  -- On an SoC on which every wait ends, also one longer than a turn of the timer, a read of at
  -- least one byte ends, with fuel for the rounds that the timer leaves it: it returns 0 and has
  -- stored all the bytes that it was asked for, or it returns -1 and has stored fewer.
  pub read_data-Reads :
      (fuel num_bytes : ℕ) (timeout : ℤ) (s : K.State)
      → 1 ≤ num_bytes
      → (let e = K.elapsed (pos 0) (negsuc 0) s in
          left e.last_event (timeout_cycles K timeout) e.state < fuel)
      → Reads num_bytes (read_data K fuel num_bytes timeout s)
  unfolding read_data
  read_data-Reads fuel n timeout s some_bytes enough =
      let e = K.elapsed (pos 0) (negsuc 0) s in
      let (r, f, _, counted) =
        read_loop-Finishes K L (λ count s'. Unit {0}) (λ count start period s' u. tt)
          (λ count s' u. tt) (λ count s' y u. tt) fuel n (timeout_cycles K timeout) 0 e.last_event
          e.state tt enough in
      (r, f, as_read n r.code r.bytes some_bytes counted)

module _ (K : Soc) where
  elapsed_seconds-down :
      (start_value end_value reload : ℕ)
      → end_value ≤ start_value
      → start_value < 2 ^ (K.int_bits - 1)
      → elapsed_seconds K start_value end_value reload
        ≡ pos 0 -ℤ pos ((start_value - end_value) / K.system_clock_frequency)
  unfolding elapsed_seconds ◌-ℤ◌
  elapsed_seconds-down a b reload down fits = ground arith

  -- Where the read ends, and the timer was read at the start and at the end of its way down, with
  -- no turn between and from a value that fits an `int`, the time that is reported is minus the
  -- time that has passed, in seconds rounded towards 0.
  pub read_data_get_elapsed_time-negates :
      (fuel num_bytes : ℕ) (timeout : ℤ) (s : K.State) (r : Reading K.State)
      → read_data K fuel num_bytes timeout s ≡ some r
      → K.timer0_value_read r.port ≤ K.timer0_value_read s
      → K.timer0_value_read s < 2 ^ (K.int_bits - 1)
      → read_data_get_elapsed_time K fuel num_bytes timeout s
        ≡ some (
            timed
              (pos 0
                -ℤ pos (
                    (K.timer0_value_read s - K.timer0_value_read r.port)
                    / K.system_clock_frequency))
              r)
  unfolding read_data_get_elapsed_time
  read_data_get_elapsed_time-negates fuel n timeout s r e down fits =
      rw (e, read_data_get_elapsed_time)
        (ap (λ t. some (timed t r))
          (elapsed_seconds-down (K.timer0_value_read s) (K.timer0_value_read r.port)
            (K.timer0_reload_read r.port) down fits))
