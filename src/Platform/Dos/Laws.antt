-- ===== src/Platform/Dos/Laws.antt =====
-- What the primitives of src/dos/serprim.c do with ports and timeouts.
use libmodem.Platform.Dos.{
  Comlib, open_handle, handle_valid, comlib_pn, init_port, read_data, int_max, timeout_ticks,
}
use libmodem.Prelude.{ℕ, ◌≡◌, refl, ◌&&◌, ◌||◌, leb, ltb, arith, Bool-cases, inl, inr}
use libmodem.Prelude.Int.{ℤ}

-- A port number gives a valid handle exactly when it is one of 1 to 4.
pub handle_valid-open_handle :
    (port_no : ℕ) → handle_valid (open_handle port_no) ≡ (leb 1 port_no && leb port_no 4)
unfolding handle_valid open_handle
handle_valid-open_handle port_no = ground arith

module _ (K : Comlib) where
  comlib_pn-open_handle : (port_no : ℕ) → comlib_pn K (open_handle port_no) ≡ K.co_com1
  unfolding comlib_pn open_handle
  comlib_pn-open_handle port_no = ground arith

  -- Whatever port was opened, valid or not, `init_port` initialises it as it does port 1.
  pub init_port-open_handle :
      (port_no baud_rate : ℕ) (s : K.State)
      → init_port K (open_handle port_no) baud_rate s ≡ init_port K (open_handle 1) baud_rate s
  unfolding init_port
  init_port-open_handle port_no baud_rate s =
      rw (comlib_pn-open_handle port_no, comlib_pn-open_handle 1) refl

  -- If the library gives back the timeout that was set last, a read leaves the timeout as it found
  -- it, on every path.
  pub read_data-restores :
      ((t : ℕ) (s : K.State) → K.comgettimeout (K.comsettimeout t s) ≡ t)
      → (num_bytes : ℕ) (timeout : ℤ) (s : K.State)
      → K.comgettimeout (read_data K num_bytes timeout s).port ≡ K.comgettimeout s
  unfolding read_data
  read_data-restores set num_bytes timeout s =
      elim (Bool-cases (ltb (int_max K) num_bytes || ltb (int_max K) (timeout_ticks K timeout))) [
        | inl e ↦ rw e refl
        | inr e ↦ rw e (set _ _)
      ]
