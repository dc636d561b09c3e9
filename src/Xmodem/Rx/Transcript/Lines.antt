-- ===== src/Xmodem/Rx/Transcript/Lines.antt =====
-- Transcripts of receptions that begin with pauses and go on as a course of the protocol.
use libmodem.Modem.{modem_no_errors, XferMode, xmodem, xmodem_crc, nak, ascii_c}
use libmodem.Prelude.{
  ℕ, zero, suc, ◌+◌, ◌≤◌, refl, ap, ◌∙◌, List, [], ◌∷◌, ◌++◌, replicate, arith, append_assoc, subst,
}
use libmodem.Xmodem.Rx.Course.{packet_mode, packet, patience, Receives}
use libmodem.Xmodem.Pauses.{Ending}
use libmodem.Xmodem.Rx.Transcript.{Transcript}
use libmodem.Xmodem.Frame.{trailer}

-- The end that leaves this much unread.
abbrev pub good_end : List ℕ → List (List ℕ) → Ending
good_end more later = record { outcome = modem_no_errors; unread = more; behind = later }

-- A course of the protocol is a transcript.
pub Receives-Transcript :
    {w : ℕ} (most : ℕ) {f : XferMode} {n tries : ℕ} {inc answers stored : List ℕ} (tx : ℕ)
    (more : List ℕ) (later : List (List ℕ))
    → Receives w f n tries inc answers stored
    → Transcript w most (good_end more later) f n tries tx (inc ++ more) later answers stored
Receives-Transcript most tx more later (Receives.ended few e e1 e2) =
    Transcript.finished few refl (ap (λ t. t ++ more) e) refl e1 e2
Receives-Transcript most tx more later (Receives.noise x few quiet course e) =
    Transcript.stray x few quiet (Receives-Transcript most tx more later course)
      (ap (λ t. t ++ more) e)
Receives-Transcript {w} most {f} tx more later
      (Receives.accepted {inc' = inc'} small number comp block few size step course e e1 e2) =
    let g = packet_mode f small in
    Transcript.taken small number comp block few size step
      (Receives-Transcript most nak more later course)
      (ap (λ t. t ++ more) e
        ∙ append_assoc (packet g number comp block (trailer w g block)) inc' more)
      e1 e2
Receives-Transcript {w} most {f} tx more later
      (Receives.rejected {inc' = inc'} small number comp block tag few size size' bytes bad step
        course e e1) =
    Transcript.refused small number comp block tag few size size' bytes bad step
      (Receives-Transcript most nak more later course)
      (ap (λ t. t ++ more) e
        ∙ append_assoc (packet (packet_mode f small) number comp block tag) inc' more)
      e1

-- Waits in vain, each answered by the request for a packet.
pauses_before :
    {w most : ℕ} {z : Ending} {f : XferMode} {n tx : ℕ} {next answers stored : List ℕ}
    {others : List (List ℕ)} (j tries : ℕ)
    → tries + j ≤ patience f
    → Transcript w most z f n (suc (tries + j)) tx next others answers stored
    → Transcript w most z f n tries tx []
        (replicate j [] ++ next ∷ others)
        (tx ∷ (replicate j tx ++ answers))
        stored
pauses_before {w} {most} {z} {f} {n} {tx} {next} {answers} {stored} {others} zero tries few course =
    Transcript.paused (omega arith)
      (subst (λ t. Transcript w most z f n t tx next others answers stored) (omega arith) course)
      refl refl refl
pauses_before {w} {most} {z} {f} {n} {tx} {next} {answers} {stored} {others} (suc j) tries few
      course =
    Transcript.paused (omega arith)
      (pauses_before j (suc tries) (omega arith)
        (subst (λ t. Transcript w most z f n t tx next others answers stored) (omega arith) course))
      refl refl refl

-- What comes before a receiver that asked for XMODEM-CRC in vain has asked for XMODEM for the
-- last time.
abbrev pub silence : ℕ → List ℕ → List (List ℕ)
silence j next = [] ∷ [] ∷ [] ∷ (replicate j [] ++ next ∷ [])

-- Four requests for XMODEM-CRC are in vain, and then the receiver asks for XMODEM until something
-- comes.
pub downgraded_course :
    {w most : ℕ} {inc answers stored : List ℕ} (j : ℕ) (more : List ℕ)
    → j ≤ 8
    → Receives w xmodem 1 (4 + j) inc answers stored
    → Transcript w most
        (good_end more [])
        xmodem_crc
        1
        0
        ascii_c
        []
        (silence j (inc ++ more))
        (ascii_c ∷ ascii_c ∷ ascii_c ∷ nak ∷ (replicate j nak ++ answers))
        stored
downgraded_course {w} {most} {inc} {answers} {stored} j more few course =
    pauses_before 2 0 (omega arith) (
      Transcript.downgrade refl (omega arith) (omega arith) (
        pauses_before j 3 (omega arith) (
          Receives-Transcript most nak more []
            (subst (λ t. Receives w xmodem 1 t inc answers stored) (omega arith) course))))
