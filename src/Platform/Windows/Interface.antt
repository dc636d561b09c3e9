-- ===== src/Platform/Windows/Interface.antt =====
-- The primitives of src/windows/serprim.c as what src/serprim.h asks of a platform.
use libmodem.Platform.Windows.{
  Win32, open_handle, handle_valid, init_port, write_data, read_data, read_ticks, curr_timeouts,
  read_data_get_elapsed_time, close_handle, flush_device,
}
use libmodem.Prelude.{
  ℕ, ◌≤◌, ◌<◌, ◌≡◌, ◌≢◌, refl, ap, ◌∙◌, ◌⊎◌, inl, inr, Bool, true, false, Bool-cases, Option-cases,
  List, length, ◌==◌, if◌then◌else◌, arith,
}
use libmodem.Prelude.Int.{ℤ, pos, negsuc}
use libmodem.Serial.{
  serial_no_errors, serial_timeout, serial_hw_error, serial_rcv, serial_close, read_status,
  clamp_timeout,
}
use libmodem.Serial.Laws.{serial_close_lem}
use libmodem.Serial.Primitives.{Serprim, Handle, null}
use libmodem.Xmodem.Safety.{IsBounded}

module _ (K : Win32) where
  abbrev pub serprim : Serprim
  serprim = record {
    int_bits = 32;
    size_bits = K.size_bits;
    Port = K.State;
    open_handle = open_handle K;
    handle_valid = handle_valid K;
    init_port = init_port K;
    write_data = write_data K;
    read_data = read_data K;
    read_data_get_elapsed_time = read_data_get_elapsed_time K;
    close_handle = close_handle K;
    flush_device = flush_device K;
  }

  -- `ReadFile` stores no more than it is asked for.
  abbrev pub ReadsAtMost : Type 0
  ReadsAtMost = (h : Handle) (n : ℕ) (s : K.State) → length (K.read_file h n s).bytes ≤ n

  -- The return value of a read of `n` bytes, and what it says of what was stored.
  abbrev pub IsAnswer : ℕ → ℤ → List ℕ → Type 0
  IsAnswer n code octets =
      ((code ≡ pos 0) × (length octets ≡ n))
      ⊎ (((code ≡ negsuc 0) × (length octets < n)) ⊎ ((code ≡ negsuc 1) × (length octets ≤ n)))

  full : (a n : ℕ) → (a == n) ≡ true → a ≡ n
  full a n e = ground arith

  short : (a n : ℕ) → a ≤ n → (a == n) ≡ false → a < n
  short a n few e = ground arith

  counted :
      (ok : Bool) (n : ℕ) (octets : List ℕ)
      → length octets ≤ n
      → IsAnswer n
          (if ok then (if length octets == n then pos 0 else negsuc 0) else negsuc 1)
          octets
  counted true n octets few = elim (Bool-cases (length octets == n)) [
    | inl e ↦ rw e (inl (refl, full (length octets) n e))
    | inr e ↦ rw e (inr (inl (refl, short (length octets) n few e)))
  ]
  counted false n octets few = inr (inr (refl, few))

  read_data-answers :
      ReadsAtMost
      → (h : Handle) (n : ℕ) (timeout : ℤ) (s : K.State)
      → let r = read_data K h n timeout s in IsAnswer n r.code r.bytes
  unfolding read_data
  read_data-answers R h n timeout s = elim (Option-cases (K.get_comm_timeouts h s)) [
    | inl e ↦ rw (e, read_data) (inr (inr (refl, omega arith)))
    | inr (prev, e) ↦
        let (set, s1) = K.set_comm_timeouts h (curr_timeouts (read_ticks timeout) prev) s in
        elim (Bool-cases set) [
          | inr f ↦ rw (e, read_data, f) (inr (inr (refl, omega arith)))
          | inl f ↦
              let r = K.read_file h n s1 in
              rw (e, read_data, f) (counted r.success n r.bytes (R h n s1))
        ]
  ]

  at_most : (n : ℕ) (code : ℤ) (octets : List ℕ) → IsAnswer n code octets → length octets ≤ n
  at_most n code octets (inl (e, f)) = omega arith
  at_most n code octets (inr (inl (e, f))) = omega arith
  at_most n code octets (inr (inr (e, f))) = f

  timed_read-answers :
      ReadsAtMost
      → (h : Handle) (n : ℕ) (timeout : ℤ) (s : K.State)
      → let r = read_data_get_elapsed_time K h n timeout s in IsAnswer n r.code r.bytes
  unfolding read_data_get_elapsed_time
  timed_read-answers R h n timeout s = read_data-answers R h n timeout s

  -- The interface of a library that reads no more than it is asked for does so too.
  pub serprim_lem : ReadsAtMost → IsBounded serprim
  serprim_lem R = record {
    read = λ h n t s some_bytes. at_most n _ _ (read_data-answers R h n t s);
    timed_read = λ h n t s some_bytes. at_most n _ _ (timed_read-answers R h n t s);
  }

  status-of :
      (n : ℕ) (code : ℤ) (octets : List ℕ)
      → IsAnswer n code octets
      → ((read_status code ≡ serial_no_errors) × (length octets ≡ n))
        ⊎ (((read_status code ≡ serial_timeout) × (length octets < n))
            ⊎ ((read_status code ≡ serial_hw_error) × (length octets ≤ n)))
  unfolding read_status
  status-of n code octets (inl (e, f)) = inl (ap read_status e, f)
  status-of n code octets (inr (inl (e, f))) = inr (inl (ap read_status e, f))
  status-of n code octets (inr (inr (e, f))) = inr (inr (ap read_status e, f))

  -- On a valid handle, if the library reads no more than it is asked for, `serial_rcv` returns no
  -- error with all the bytes that it was asked for, a timeout with fewer, or an error of the
  -- hardware with no more.
  pub serial_rcv-answers :
      ReadsAtMost
      → (n : ℕ) (timeout : ℤ) (timed : Bool) (h : Handle) (s : K.State) → handle_valid K h ≡ true
      → let r = serial_rcv serprim n timeout timed h s in
        ((r.status ≡ serial_no_errors) × (length r.bytes ≡ n))
        ⊎ (((r.status ≡ serial_timeout) × (length r.bytes < n))
            ⊎ ((r.status ≡ serial_hw_error) × (length r.bytes ≤ n)))
  unfolding serial_rcv
  serial_rcv-answers R n timeout true h s valid =
      rw valid (status-of n _ _ (timed_read-answers R h n (clamp_timeout timeout) s))
  serial_rcv-answers R n timeout false h s valid =
      rw valid (status-of n _ _ (read_data-answers R h n (clamp_timeout timeout) s))

  null-handle_valid : K.invalid_handle_value ≢ null → handle_valid K null ≡ true
  unfolding handle_valid
  null-handle_valid other = ground arith

  -- If `INVALID_HANDLE_VALUE` is not `NULL`, the handle that a successful `serial_close` leaves
  -- behind counts as valid.
  pub serial_close-handle_valid :
      K.invalid_handle_value ≢ null
      → (h : Handle) (s : K.State) → (serial_close serprim h s).0 ≡ serial_no_errors
      → handle_valid K (serial_close serprim h s).1 ≡ true
  serial_close-handle_valid other h s closed =
      ap (handle_valid K) ((serial_close_lem serprim h s).1 closed) ∙ null-handle_valid other
