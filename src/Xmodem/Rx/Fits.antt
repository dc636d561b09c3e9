-- ===== src/Xmodem/Rx/Fits.antt =====
-- The codes that `xmodem_rx` returns, and the variables with which its packets fit into the buffer.
use libmodem.Modem.{
  soh, stx, data_start, ModemError, modem_no_errors, bad_crc_chksum, sent_can, packet_mismatch,
  channel_error, undefined_error, modem_hw_error, modem_timeout, not_implemented, XferMode, xmodem,
  xmodem_crc, xmodem_1k, is_xmodem_crc, is_xmodem_1k,
}
use libmodem.Prelude.{
  ℕ, ◌+◌, ◌≤◌, ◌≡◌, true, Bool-cases, inl, inr, not, ◌&&◌, length, ltb, ◌==◌, arith,
}
use libmodem.Serial.Primitives.{Serprim}
use libmodem.Xmodem.Frame.{size_of, trailer_size}
use libmodem.Xmodem.Rx.{RxVars, rx_start, fallback, adjust}
use libmodem.Xmodem.Session.{Session}

-- The codes that a receiver may return.
abbrev pub IsRxCode : ModemError → Type 0
IsRxCode modem_no_errors = Unit
IsRxCode packet_mismatch = Unit
IsRxCode channel_error = Unit
IsRxCode undefined_error = Unit
IsRxCode modem_timeout = Unit
IsRxCode bad_crc_chksum = ⊥
IsRxCode sent_can = ⊥
IsRxCode modem_hw_error = ⊥
IsRxCode not_implemented = ⊥

abbrev pub RxEnds : {P : Serprim} {C : Type 0} → ℕ → ModemError → Session P C → Type 0
RxEnds N e s = IsRxCode e × (length s.buffer ≡ N)

-- The packets of the mode and of the variables fit.
abbrev pub RxFits : ℕ → RxVars → Type 0
RxFits N v =
    (data_start + size_of v.flags + trailer_size v.flags ≤ N)
    × (v.chksum_offset ≤ N)
    × (v.packet_end ≤ N)
    × (2 ≤ v.packet_end)

pub least_room : (f : XferMode) (N : ℕ) → data_start + size_of f + trailer_size f ≤ N → 132 ≤ N
least_room xmodem N room = room
least_room xmodem_crc N room = omega arith
least_room xmodem_1k N room = omega arith

pub rx_start-RxFits :
    (w N : ℕ) (f : XferMode) → data_start + size_of f + trailer_size f ≤ N → RxFits N (rx_start w f)
unfolding rx_start
rx_start-RxFits w N xmodem room = omega arith
rx_start-RxFits w N xmodem_crc room = omega arith
rx_start-RxFits w N xmodem_1k room = omega arith

pub fallback-RxFits : (N : ℕ) (v : RxVars) → RxFits N v → RxFits N (fallback v)
unfolding fallback
fallback-RxFits N v fits =
    let low = least_room v.flags N fits.0 in
    elim (Bool-cases (is_xmodem_crc v.flags && ltb 2 v.error_count)) [
      | inl e ↦ rw e (low, fits.1, low, omega arith)
      | inr e ↦ rw e fits
    ]

large_room :
    (f : XferMode) (N : ℕ)
    → data_start + size_of f + trailer_size f ≤ N
    → is_xmodem_1k f ≡ true
    → 1029 ≤ N
large_room xmodem N room e = cc
large_room xmodem_crc N room e = cc
large_room xmodem_1k N room e = room

pub adjust-RxFits : (N c : ℕ) (v : RxVars) → RxFits N v → RxFits N (adjust c v)
unfolding adjust
adjust-RxFits N c v fits = elim (Bool-cases (is_xmodem_1k v.flags)) [
  | inr e ↦ rw e fits
  | inl e ↦
      let large = large_room v.flags N fits.0 e in
      let low : 133 ≤ N = omega (arith, large) in
      let high : 1027 ≤ N = omega (arith, large) in
      let near : 131 ≤ N = omega (arith, large) in
      elim (Bool-cases ((c == soh) && not v.using_128_blocks_in_1k)) [
        | inl small ↦ rw (e, small) (fits.0, near, low, omega arith)
        | inr rest ↦ elim (Bool-cases ((c == stx) && v.using_128_blocks_in_1k)) [
          | inl back ↦ rw (e, rest, back) (fits.0, high, large, omega arith)
          | inr same ↦ rw (e, rest, same) fits
        ]
      ]
]
