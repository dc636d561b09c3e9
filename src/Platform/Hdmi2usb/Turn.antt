-- ===== src/Platform/Hdmi2usb/Turn.antt =====
-- Reads of src/hdmi2usb/serprim.c that are to wait longer than a turn of the timer that its
-- `init_port` sets up.
use libmodem.Platform.Hdmi2usb.{
  Soc, int_result, timer_period, init_port, timeout_cycles, read_loop, read_data,
}
use libmodem.Prelude.{ℕ, zero, suc, ◌*◌, ◌-◌, ◌^◌, ◌≤◌, ◌<◌, ◌≡◌, refl, ◌∙◌, false, none, arith}
use native.Mathlib.Nat.{mod-le, mul-le-mul_right}
use libmodem.Prelude.Int.{ℤ, pos, negsuc, ◌*ℤ◌}

-- `elapsed` measures by the timer, which goes from its reload value down and then starts again, so
-- that it never has more than this value for the cycles that have passed. The other calls leave the
-- value alone. While the line is silent nothing has come, and none of the calls brings something.
pub record HasTimer (K : Soc) : Type 1 where
  pub Silent : K.State → Type 0
  pub polls : (s : K.State) → Silent s → (K.uart_read_nonblock s).0 ≡ false
  pub poll_silent : (s : K.State) → Silent s → Silent (K.uart_read_nonblock s).1
  pub elapsed_silent :
      (start period : ℤ) (s : K.State) → Silent s → Silent (K.elapsed start period s).state
  pub enable_silent : (n : ℕ) (s : K.State) → Silent s → Silent (K.timer0_en_write n s)
  pub reload_silent : (n : ℕ) (s : K.State) → Silent s → Silent (K.timer0_reload_write n s)
  pub load_silent : (n : ℕ) (s : K.State) → Silent s → Silent (K.timer0_load_write n s)
  pub reload_set : (n : ℕ) (s : K.State) → K.timer0_reload_read (K.timer0_reload_write n s) ≡ n
  pub load_keeps :
      (n : ℕ) (s : K.State)
      → K.timer0_reload_read (K.timer0_load_write n s) ≡ K.timer0_reload_read s
  pub enable_keeps :
      (n : ℕ) (s : K.State) → K.timer0_reload_read (K.timer0_en_write n s) ≡ K.timer0_reload_read s
  pub poll_keeps :
      (s : K.State) → K.timer0_reload_read (K.uart_read_nonblock s).1 ≡ K.timer0_reload_read s
  pub elapsed_keeps :
      (start period : ℤ) (s : K.State)
      → K.timer0_reload_read (K.elapsed start period s).state ≡ K.timer0_reload_read s
  pub within_turn :
      (start : ℤ) (cycles : ℕ) (s : K.State)
      → K.timer0_reload_read s ≤ cycles
      → (K.elapsed start (pos cycles) s).expired ≡ false

pos-times : (a b : ℕ) → pos a *ℤ pos b ≡ pos (a * b)
unfolding ◌*ℤ◌
pos-times a b = ground arith

module _ (K : Soc) where
  int_result_lem : (n : ℕ) → n < 2 ^ (K.int_bits - 1) → int_result K (pos n) ≡ pos n
  int_result_lem n fits = ground arith

  timer_period_lem :
      11 * K.system_clock_frequency < 2 ^ (K.int_bits - 1)
      → timer_period K ≤ 11 * K.system_clock_frequency
  unfolding timer_period
  timer_period_lem fits = rw (int_result_lem _ fits) (mod-le _ _)

  timeout_cycles_lem :
      (timeout : ℕ)
      → timeout * K.system_clock_frequency < 2 ^ (K.int_bits - 1)
      → timeout_cycles K (pos timeout) ≡ pos (timeout * K.system_clock_frequency)
  unfolding timeout_cycles
  timeout_cycles_lem timeout fits =
      rw (pos-times timeout K.system_clock_frequency) (int_result_lem _ fits)

module _ (K : Soc) (T : HasTimer K) where
  init_port-reload : (s : K.State) → K.timer0_reload_read (init_port K s).1 ≡ timer_period K
  unfolding init_port
  init_port-reload s =
      T.enable_keeps 1 _ ∙ T.load_keeps (timer_period K) _ ∙ T.reload_set (timer_period K) _

  init_port-Silent : (s : K.State) → T.Silent s → T.Silent (init_port K s).1
  unfolding init_port
  init_port-Silent s quiet = T.enable_silent 1 _ (
      T.load_silent (timer_period K) _
        (T.reload_silent (timer_period K) _ (T.enable_silent 0 s quiet)))

  read_loop-stuck :
      (fuel num_bytes count cycles : ℕ) (start : ℤ) (s : K.State)
      → T.Silent s
      → K.timer0_reload_read s ≤ cycles
      → read_loop K fuel num_bytes (pos cycles) count start s ≡ none
  unfolding read_loop
  read_loop-stuck zero n count cycles start s quiet short = refl
  read_loop-stuck (suc fuel) n count cycles start s quiet short =
      let e = K.elapsed start (pos cycles) s in
      let quiet1 = T.elapsed_silent start (pos cycles) s quiet in
      rw (T.within_turn start cycles s short, T.polls e.state quiet1, read_loop)
        (read_loop-stuck fuel n count cycles e.last_event _ (T.poll_silent e.state quiet1)
          (omega (arith, short, T.poll_keeps e.state, T.elapsed_keeps start (pos cycles) s)))

  -- If `elapsed` measures by the timer, within one of its turns, then behind `init_port`, which has
  -- it turn after 11 seconds, a read with a timeout of 11 seconds or more, which in cycles fits an
  -- `int`, does not end on a silent line, however long it runs.
  pub read_data-stuck :
      (fuel num_bytes timeout : ℕ) (s : K.State)
      → T.Silent s
      → 11 ≤ timeout
      → timeout * K.system_clock_frequency < 2 ^ (K.int_bits - 1)
      → read_data K fuel num_bytes (pos timeout) (init_port K s).1 ≡ none
  unfolding read_data
  read_data-stuck fuel n timeout s quiet long fits =
      let s1 = (init_port K s).1 in
      let e = K.elapsed (pos 0) (negsuc 0) s1 in
      let f = K.system_clock_frequency in
      let quiet1 = T.elapsed_silent (pos 0) (negsuc 0) s1 (init_port-Silent s quiet) in
      let less : 11 * f ≤ timeout * f = mul-le-mul_right f long in
      rw (timeout_cycles_lem K timeout fits) (
        read_loop-stuck fuel n 0 (timeout * f) e.last_event e.state quiet1 (
          omega (
            arith,
            less,
            T.elapsed_keeps (pos 0) (negsuc 0) s1,
            init_port-reload s,
            timer_period_lem K (omega (arith, less, fits)),
          )))
