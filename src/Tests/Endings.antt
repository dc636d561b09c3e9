-- ===== src/Tests/Endings.antt =====
-- Transfers over the loopback line that end before they succeed.
use libmodem.Modem.{ModemError, nul, soh, nak, modem_hw_error, modem_timeout, xmodem, xmodem_crc}
use libmodem.Prelude.{
  ℕ, ◌≡◌, ◌≤◌, ◌+◌, ◌⊎◌, refl, false, inl, inr, Bool-cases, List, [], ◌∷◌, length, drop, leb,
  leb→le, arith, replicate, length-take, length-drop,
}
use libmodem.Prelude.Int.{pos, negsuc}
use libmodem.Tests.Loopback.{Wire, wire, wire_read, loopback, list_reader}
use libmodem.Tests.Receptions.{list_writer}
use libmodem.Xmodem.Draining.{IsDraining, IsSoft}
use libmodem.Xmodem.Invalid.{transfers_inert}
use libmodem.Xmodem.Buffer.{at}
use libmodem.Xmodem.Returns.{Returns}
use libmodem.Xmodem.Rx.{xmodem_rx}
use libmodem.Xmodem.Rx.Fits.{IsRxCode, RxEnds}
use libmodem.Xmodem.Rx.Safety.{xmodem_rx-RxEnds}
use libmodem.Xmodem.Rx.Termination.{xmodem_rx-IsRxCode}
use libmodem.Xmodem.Safety.{IsBounded}
use libmodem.Xmodem.Session.{Session, ok}
use libmodem.Xmodem.Tx.{xmodem_tx}
use libmodem.Xmodem.Tx.Fits.{IsTxCode, TxEnds}
use libmodem.Xmodem.Tx.Safety.{xmodem_tx-TxEnds}
use libmodem.Xmodem.Tx.Termination.{xmodem_tx-IsTxCode}

pub few_bytes : (n : ℕ) (s : Wire) → length (wire_read n s).bytes ≤ n
few_bytes n s = elim (Bool-cases (leb n (length s.arriving))) [
  | inl e ↦ rw e (omega (arith, length-take {0} n s.arriving))
  | inr e ↦ rw e (not_enough n (length s.arriving) e)
]
  where
    not_enough : (a b : ℕ) → leb a b ≡ false → b ≤ a
    not_enough a b h = ground arith

pub fewer_left :
    (n : ℕ) (s : Wire)
    → let r = wire_read n s in
      ((r.code ≡ pos 0) × (n + length r.port.arriving ≤ length s.arriving))
      ⊎ ((r.code ≡ negsuc 0) × (length r.bytes + length r.port.arriving ≤ length s.arriving))
fewer_left n s = elim (Bool-cases (leb n (length s.arriving))) [
  | inl e ↦
      rw e (inl (refl, omega (arith, leb→le n (length s.arriving) e, length-drop {0} n s.arriving)))
  | inr e ↦ rw e (inr (refl, omega arith))
]

abbrev pub loopback-IsBounded : IsBounded loopback
loopback-IsBounded = record {
  read = λ h n t s some_bytes. few_bytes n s;
  timed_read = λ h n t s some_bytes. few_bytes n s;
}

abbrev pub loopback-IsDraining : IsDraining loopback 1
loopback-IsDraining = record {
  pending = λ s. length s.arriving;
  valid = refl;
  write = λ xs s. omega arith;
  flush = λ s. omega arith;
  read = λ n t s. fewer_left n s;
  timed_read = λ n t s. fewer_left n s;
}

pub list_reader-bytes : (n last : ℕ) (file : List ℕ) → length (list_reader n last file).bytes ≤ n
list_reader-bytes n last file = omega (arith, length-take {0} n (drop last file))

-- A request, a character that is no answer, and silence.
abbrev odd_answer : Session loopback (List ℕ)
odd_answer = record { buffer = replicate 132 0; chan = 1 ∷ 2 ∷ []; port = wire (nak ∷ 7 ∷ []) [] }

-- The start of a packet, three of its bytes, and silence.
abbrev cut_packet : Session loopback (List ℕ)
cut_packet = record { buffer = replicate 132 0; chan = []; port = wire (soh ∷ 1 ∷ 254 ∷ 5 ∷ []) [] }

xmodem_tx-TxEnds_example :
    Returns (TxEnds 132) (λ e s. ⊥) (Unit {0}) ⊥ (xmodem_tx 1 list_reader xmodem 1 odd_answer)
xmodem_tx-TxEnds_example =
    xmodem_tx-TxEnds list_reader loopback-IsBounded list_reader-bytes 1 xmodem 1 odd_answer
      (omega arith)

xmodem_rx-RxEnds_example :
    Returns (RxEnds 132) (λ e s. ⊥) (Unit {0}) ⊥ (xmodem_rx 1 list_writer xmodem 1 cut_packet)
xmodem_rx-RxEnds_example =
    xmodem_rx-RxEnds list_writer loopback-IsBounded 1 xmodem 1 cut_packet (omega arith)

xmodem_tx-IsTxCode_example :
    (e : ModemError) × (s' : Session loopback (List ℕ)) × (xmodem_tx 1 list_reader xmodem 3
        odd_answer
      ≡ ok e s')
    × IsTxCode e
    × IsSoft e
    × (length s'.buffer ≡ 132)
xmodem_tx-IsTxCode_example =
    xmodem_tx-IsTxCode list_reader loopback-IsBounded loopback-IsDraining list_reader-bytes xmodem 3
      odd_answer (omega arith) (omega arith)

xmodem_rx-IsRxCode_example :
    (e : ModemError) × (s' : Session loopback (List ℕ)) × (xmodem_rx 1 list_writer xmodem 5
        cut_packet
      ≡ ok e s')
    × IsRxCode e
    × IsSoft e
    × (length s'.buffer ≡ 132)
xmodem_rx-IsRxCode_example =
    xmodem_rx-IsRxCode list_writer loopback-IsBounded loopback-IsDraining (omega arith) xmodem 5
      cut_packet (omega arith) (omega arith)

-- The loopback has the handle 1 only.
transfers_inert_example :
    let line = wire (soh ∷ nak ∷ []) [] in
    (xmodem_tx 2 list_reader xmodem_crc 1 (at loopback (replicate 133 7) (0x68 ∷ []) line)
      ≡ ok modem_hw_error (at loopback (replicate 133 7) (0x68 ∷ []) line))
    × (xmodem_rx 2 list_writer xmodem_crc 1 (at loopback (7 ∷ replicate 132 7) [] line)
        ≡ ok modem_timeout (at loopback (nul ∷ replicate 132 7) [] line))
transfers_inert_example =
    transfers_inert 2 list_reader list_writer xmodem_crc 0 7 (replicate 132 7)
      (at loopback (replicate 133 7) (0x68 ∷ []) (wire (soh ∷ nak ∷ []) [])) []
      (wire (soh ∷ nak ∷ []) []) refl (omega arith)
