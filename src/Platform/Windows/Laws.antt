-- ===== src/Platform/Windows/Laws.antt =====
-- What the primitives of src/windows/serprim.c do.
use libmodem.Platform.Windows.{
  Win32, CommTimeouts, Dcb, decimal, com_string, configured, first_timeouts, init_port, read_data,
  read_ticks, curr_timeouts, read_data_get_elapsed_time, tick_difference,
}
use libmodem.Prelude.{
  ℕ, zero, suc, ◌+◌, ◌-◌, ◌*◌, ◌/◌, ◌%◌, ◌^◌, ◌≤◌, ◌<◌, ◌≡◌, ◌≢◌, refl, ◌∙◌, ◌⊎◌, inl, inr, true,
  false, Bool-cases, none, some, Option-cases, List, [], ◌∷◌, ◌++◌, length, drop, length-append,
  ltb, arith,
}
use libmodem.Prelude.Int.{ℤ, pos, negsuc}
use libmodem.Serial.Primitives.{Handle}

-- The number that decimal digits stand for, with the digits in front of them.
pub number_from : ℕ → List ℕ → ℕ
number_from n [] = n
number_from n (c ∷ digits) = number_from (10 * n + (c - 48)) digits

number_from-append :
    (n : ℕ) (xs ys : List ℕ) → number_from n (xs ++ ys) ≡ number_from (number_from n xs) ys
unfolding number_from
number_from-append n [] ys = refl
number_from-append n (x ∷ xs) ys = number_from-append (10 * n + (x - 48)) xs ys

decimal_lem :
    (digits n : ℕ)
    → n < 10 ^ digits
    → (number_from 0 (decimal digits n) ≡ n) × (length (decimal digits n) ≤ digits)
unfolding decimal number_from
decimal_lem zero n below = omega arith
decimal_lem (suc digits) n below = elim (Bool-cases (ltb n 10)) [
  | inl e ↦ rw e (omega arith)
  | inr e ↦
      let (f, g) = decimal_lem digits (n / 10) (omega (arith, below)) in
      let front = decimal digits (n / 10) in
      rw e (
        number_from-append 0 front ((48 + n % 10) ∷ []) ∙ rw f (omega arith),
        omega (arith, g, length-append {0} front ((48 + n % 10) ∷ [])),
      )
]

-- The name of a port fits its array of 14 characters, with the zero behind it, and gives the number
-- of the port, so that different ports have different names.
pub com_string-fits :
    (port_no : ℕ)
    → port_no < 2 ^ 16
    → (length (com_string port_no) + 1 ≤ 14)
      × (number_from 0 (drop 7 (com_string port_no)) ≡ port_no)
unfolding com_string
com_string-fits port_no small = let (f, g) = decimal_lem 5 port_no (omega arith) in (omega arith, f)

-- What the documentation of the calls says of the timeouts: those that were set are given back, a
-- call that fails sets none, and the timeouts that were found can be set again.
pub record HasTimeouts (K : Win32) (h : Handle) : Type 0 where
  pub set_gets :
      (t : CommTimeouts) (s : K.State)
      → let r = K.set_comm_timeouts h t s in r.0 ≡ true → K.get_comm_timeouts h r.1 ≡ some t
  pub failed_keeps :
      (t : CommTimeouts) (s : K.State)
      → let r = K.set_comm_timeouts h t s in
        r.0 ≡ false → K.get_comm_timeouts h r.1 ≡ K.get_comm_timeouts h s
  pub sets_again :
      (t : CommTimeouts) (s s' : K.State)
      → K.get_comm_timeouts h s ≡ some t
      → (K.set_comm_timeouts h t s').0 ≡ true

module _ (K : Win32) (h : Handle) where
  -- If the timeouts that were set are given back, a call that fails sets none and the timeouts that
  -- were found can be set again, a read leaves the timeouts as it found them, on every path.
  pub read_data-keeps :
      HasTimeouts K h
      → (num_bytes : ℕ) (timeout : ℤ) (s : K.State)
      → K.get_comm_timeouts h (read_data K h num_bytes timeout s).port ≡ K.get_comm_timeouts h s
  unfolding read_data
  read_data-keeps T n timeout s = elim (Option-cases (K.get_comm_timeouts h s)) [
    | inl e ↦ rw (e, read_data) e
    | inr (prev, e) ↦
        let curr = curr_timeouts (read_ticks timeout) prev in
        elim (Bool-cases (K.set_comm_timeouts h curr s).0) [
          | inr f ↦ rw (e, read_data, f) (T.failed_keeps curr s f ∙ e)
          | inl f ↦
              let r = K.read_file h n (K.set_comm_timeouts h curr s).1 in
              rw (e, read_data, f) (T.set_gets prev r.state (T.sets_again prev s r.state e))
        ]
  ]

  -- If so many ticks of the system's 32-bit count pass during a read, and their number fits an
  -- `int`, then that number is the time that is reported, in milliseconds, also where the count
  -- wraps around.
  pub read_data_get_elapsed_time-counts :
      (num_bytes : ℕ) (timeout : ℤ) (s : K.State) (d : ℕ)
      → K.get_tick_count s < 2 ^ 32
      → d < 2 ^ 31
      → K.get_tick_count (read_data K h num_bytes timeout s).port
        ≡ (K.get_tick_count s + d) % 2 ^ 32
      → (read_data_get_elapsed_time K h num_bytes timeout s).elapsed ≡ pos d
  unfolding read_data_get_elapsed_time
  read_data_get_elapsed_time-counts n timeout s d small short e =
      difference (K.get_tick_count s) (K.get_tick_count (read_data K h n timeout s).port) d small
        short e
    where
      difference :
          (a b d : ℕ)
          → a < 2 ^ 32
          → d < 2 ^ 31
          → b ≡ (a + d) % 2 ^ 32
          → tick_difference K a b ≡ pos d
      difference a b d small short e = ground arith

-- The same of the settings, which the timeouts are no part of.
pub record HasSettings (K : Win32) (h : Handle) : Type 0 where
  pub set_gets :
      (dcb : Dcb K.DcbRest) (s : K.State)
      → let r = K.set_comm_state h dcb s in r.0 ≡ true → K.get_comm_state h r.1 ≡ some dcb
  pub timeouts_keep :
      (t : CommTimeouts) (s : K.State)
      → K.get_comm_state h (K.set_comm_timeouts h t s).1 ≡ K.get_comm_state h s

-- A read takes what is there and does not wait, and a write has no time limit.
abbrev pub IsImmediate : Win32 → CommTimeouts → Type 0
IsImmediate K t =
    (t.read_interval_timeout ≡ K.maxdword)
    × (t.read_total_timeout_multiplier ≡ 0)
    × (t.read_total_timeout_constant ≡ 0)
    × (t.write_total_timeout_multiplier ≡ 0)
    × (t.write_total_timeout_constant ≡ 0)

-- The baud rate, eight bits, one stop bit and no parity, with no flow control and reads and writes
-- that end on an error; the members that the code does not name are those of `dcb`.
abbrev pub IsAdjusted : (K : Win32) → ℕ → Dcb K.DcbRest → Dcb K.DcbRest → Type 0
IsAdjusted K baud dcb dcb' =
    (dcb'.dcb_length ≡ K.size_of_dcb)
    × (dcb'.baud_rate ≡ baud)
    × (dcb'.byte_size ≡ 8)
    × (dcb'.stop_bits ≡ K.one_stop_bit)
    × (dcb'.parity ≡ K.no_parity)
    × (dcb'.f_binary ≡ true)
    × (dcb'.f_dtr_control ≡ K.dtr_control_disable)
    × (dcb'.f_rts_control ≡ K.rts_control_disable)
    × (dcb'.f_outx_cts_flow ≡ false)
    × (dcb'.f_outx_dsr_flow ≡ false)
    × (dcb'.f_dsr_sensitivity ≡ false)
    × (dcb'.f_abort_on_error ≡ true)
    × (dcb'.rest ≡ dcb.rest)

configured-IsAdjusted :
    (K : Win32) (baud : ℕ) (dcb : Dcb K.DcbRest) → IsAdjusted K baud dcb (configured K baud dcb)
configured-IsAdjusted K baud dcb =
    (refl, refl, refl, refl, refl, refl, refl, refl, refl, refl, refl, refl, refl)

first_timeouts-IsImmediate : (K : Win32) → IsImmediate K (first_timeouts K)
first_timeouts-IsImmediate K = (refl, refl, refl, refl, refl)

module _ (K : Win32) (h : Handle) (baud : ℕ) (s : K.State) where
  -- The settings that were found are there, adjusted.
  abbrev pub HasAdjusted : K.State → Type 0
  HasAdjusted s' =
      (dcb : Dcb K.DcbRest) × (dcb' : Dcb K.DcbRest) × (K.get_comm_state h s ≡ some dcb)
      × (K.get_comm_state h s' ≡ some dcb')
      × IsAdjusted K baud dcb dcb'

  abbrev pub HasImmediate : K.State → Type 0
  HasImmediate s' = (t : CommTimeouts) × (K.get_comm_timeouts h s' ≡ some t) × IsImmediate K t

  -- If the settings and the timeouts that were set are given back, and setting the timeouts leaves
  -- the settings alone: `init_port` returns 0, and the port has the settings that were found, but
  -- with the baud rate, eight bits, one stop bit, no parity, no flow control, binary mode and an
  -- abort on errors, and timeouts with which a read does not wait; or it returns -1, and the
  -- settings cannot be read; or -2, and they can be read; or -3, and the port has these settings.
  pub init_port-configures :
      HasTimeouts K h
      → HasSettings K h
      → let (code, s') = init_port K h baud s in
        ((code ≡ pos 0) × HasImmediate s' × HasAdjusted s')
        ⊎ (((code ≡ negsuc 0) × (K.get_comm_state h s ≡ none))
            ⊎ (((code ≡ negsuc 1) × (K.get_comm_state h s ≢ none))
                ⊎ ((code ≡ negsuc 2) × HasAdjusted s')))
  unfolding init_port
  init_port-configures T S = elim (Option-cases (K.get_comm_state h s)) [
    | inl e ↦ rw (e, init_port) (inr (inl (refl, refl)))
    | inr (dcb, e) ↦
        let (set, s1) = K.set_comm_state h (configured K baud dcb) s in
        elim (Bool-cases set) [
          | inr f ↦ rw (e, init_port, f) (inr (inr (inl (refl, λ p. cc))))
          | inl f ↦
              let r = K.set_comm_timeouts h (first_timeouts K) s1 in
              let kept =
                S.timeouts_keep (first_timeouts K) s1 ∙ S.set_gets (configured K baud dcb) s f in
              let adjusted = configured-IsAdjusted K baud dcb in
              elim (Bool-cases r.0) [
                | inr g ↦
                    rw (e, init_port, f, g) (inr (inr (inr (refl, (dcb, _, refl, kept, adjusted)))))
                | inl g ↦
                    rw (e, init_port, f, g)
                      (inl (
                        refl,
                        (_, T.set_gets (first_timeouts K) s1 g, first_timeouts-IsImmediate K),
                        (dcb, _, refl, kept, adjusted),
                      ))
              ]
        ]
  ]
