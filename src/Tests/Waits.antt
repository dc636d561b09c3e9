-- ===== src/Tests/Waits.antt =====
-- The receiver's wait on a silent line, and channels that fail.
use libmodem.Modem.{ack, nak, InputChannel, xmodem}
use libmodem.Serial.Primitives.{Serprim}
use libmodem.Xmodem.Quiet.{purge-drains, purge-stuck}
use libmodem.Xmodem.Wait.{purge}
use libmodem.Prelude.{
  ◌⊎◌, inl, inr, length, ◌<◌, ap, ℕ, ◌≡◌, refl, false, List, [], ◌∷◌, ◌++◌, ◌-◌, ◌^◌, arith,
  replicate,
}
use libmodem.Prelude.Int.{pos, negsuc}
use libmodem.Tests.Loopback.{wire_read, all_read, wire, Wire, loopback, loopback-IsLine}
use libmodem.Xmodem.Buffer.{at}
use libmodem.Xmodem.Rx.{accept}
use libmodem.Xmodem.Rx.Channel.{accept-negative}
use libmodem.Xmodem.Rx.First.{vars}
use libmodem.Xmodem.Rx1.{xmodem_rx1, xmodem_rx1-stuck}
use libmodem.Xmodem.Session.{Session, ok, out_of_fuel}

abbrev silent : Session loopback ℕ
silent = at loopback (replicate 132 0) 0 (wire [] [])

-- A channel that always fails with -1.
abbrev broken : InputChannel ℕ
broken xs n eof c = (negsuc 0, c)

abbrev block : List ℕ
block = replicate 128 65

abbrev buffer : List ℕ
buffer = 1 ∷ 7 ∷ 248 ∷ (block ++ 0 ∷ [])

accept-negative_example :
    (p' : Wire) × (accept 1 broken
        (vars xmodem false 7 nak 0 false)
        (at loopback buffer 0 (wire [] []))
      ≡ ok (vars xmodem false 8 nak (2 ^ 32 - 1) false) (at loopback buffer 0 p'))
    × (p'.arriving ≡ [])
    × (p'.sent ≡ [] ++ ack ∷ [])
accept-negative_example =
    accept-negative broken loopback-IsLine xmodem false 7 nak 0 1 7 248 block (0 ∷ []) 0
      (wire [] []) 0 refl refl (omega arith)

byte_or_silence :
    (xs ys : List ℕ)
    → let r = wire_read 1 (wire xs ys) in
      (r.code ≡ negsuc 0) ⊎ ((r.code ≡ pos 0) × (length r.port.arriving < length xs))
byte_or_silence [] ys = inl refl
byte_or_silence (x ∷ xs) ys =
    let (code, bytes, left, same) = all_read (wire (x ∷ xs) ys) (x ∷ []) xs 1 refl refl in
    inr (code, omega (arith, ap (length {0}) left))

-- A line that brings three bytes more.
abbrev three_bytes : Session loopback ℕ
three_bytes = at loopback [] 0 (wire (1 ∷ 2 ∷ 3 ∷ []) [])

purge-drains_example :
    (port : Wire) × (purge 1 4 three_bytes ≡ ok tt (record three_bytes { port = port }))
purge-drains_example =
    purge-drains 1 (λ s. length s.arriving) refl (λ s. byte_or_silence s.arriving s.sent) 4
      three_bytes (omega arith)

-- The loopback line with reads that all fail.
abbrev faulty : Serprim
faulty = record loopback { read_data = λ h n t s. record { code = negsuc 1; bytes = []; port = s } }

abbrev failing : Session faulty ℕ
failing = at faulty [] 0 (wire [] [])

purge-stuck_example : purge 1 9 failing ≡ out_of_fuel
purge-stuck_example = purge-stuck 1 refl (λ s. refl) 9 failing

xmodem_rx1-stuck_example : xmodem_rx1 1 xmodem 100 silent ≡ out_of_fuel
xmodem_rx1-stuck_example = xmodem_rx1-stuck 1 xmodem 100 silent
