-- ===== src/Xmodem/Rx/Transcript/Outcome.antt =====
-- How a run of `xmodem_rx`'s loop ends, and bounds on what a transcript counts.
use libmodem.Modem.{nul, ModemError, modem_no_errors, XferMode, xmodem, xmodem_crc, xmodem_1k}
use libmodem.Prelude.{ℕ, ◌≤◌, List, arith}
use libmodem.Xmodem.Rx.{RxVars}
use libmodem.Xmodem.Rx.Counter.{patience-le}
use libmodem.Xmodem.Rx.Course.{IsIdle}
use libmodem.Xmodem.Pauses.{Ending}
use libmodem.Xmodem.Rx.Transcript.{Transcript}
use libmodem.Xmodem.Session.{Run, ok, stop}

-- The run of a loop that ends with a code.
abbrev pub ended_by : {S : Type 0} → ModemError → RxVars → S → Run S RxVars
ended_by modem_no_errors v s = ok v s
ended_by e v s = stop e s

pub nul-IsIdle : (f : XferMode) → IsIdle f nul
nul-IsIdle xmodem = (omega arith, omega arith, omega arith)
nul-IsIdle xmodem_crc = (omega arith, omega arith, omega arith)
nul-IsIdle xmodem_1k = (omega arith, omega arith, omega arith)

pub few_tries :
    {w most : ℕ} {z : Ending} {f : XferMode} {n tries tx : ℕ} {now answers held : List ℕ}
    {later : List (List ℕ)}
    → Transcript w most z f n tries tx now later answers held
    → tries ≤ 12
few_tries {f = f} (Transcript.finished few e e1 e2 e3 e4) = omega (arith, few, patience-le f)
few_tries (Transcript.gave_up e e1 e2 e3 e4 e5) = omega arith
few_tries {f = f} (Transcript.out_of_step small number comp body few size q r e e1 e2 e3 e4) =
    omega (arith, few, patience-le f)
few_tries (Transcript.downgrade e many few t) = omega arith
few_tries {f = f} (Transcript.paused few t e e1 e2) = omega (arith, few, patience-le f)
few_tries {f = f} (Transcript.stray x few i t e) = omega (arith, few, patience-le f)
few_tries {f = f} (Transcript.cut_short small part junk few short short' t e e1 e2) =
    omega (arith, few, patience-le f)
few_tries {f = f} (Transcript.taken small number comp block few size step t e e1 e2) =
    omega (arith, few, patience-le f)
few_tries {f = f} (Transcript.refused small number comp block tag few size size' q r step t e e1) =
    omega (arith, few, patience-le f)
