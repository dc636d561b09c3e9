-- ===== src/Lib.antt =====
-- Verification of libmodem, a library for XMODEM transfers over a serial line (src/xmodem.c,
-- src/modem.h) on top of a serial layer (src/serial.c, src/serial.h) and of primitives that each
-- platform implements (src/serprim.h).
--
-- Files.
-- - Prelude: the names of the library that the files share; Prelude.Tests has the Boolean tests,
--   Prelude.Lists lists over the native numbers, Prelude.Int the C `int`.
-- - Bits: exclusive or and masks by position, as arithmetic.
-- - Modem: the constants, the enumerations and the channel types of modem.h. Modem.Buffers: the
--   example channels in its comments; Copy is about what they copy, Channels has them as the
--   channels that a transfer asks for, Transfer is about one.
-- - Serial.Primitives: the record of the primitives of serprim.h, a parameter of everything above.
--   Serial: the operations of serial.c. Serial.Laws: their behaviour on every branch.
-- - Crc: `generate_chksum` and `generate_crc`. Crc.Register takes the loops apart, Crc.Residue and
--   Crc.Errors show what the CRC finds, Crc.Polynomial that it is a remainder.
-- - Xmodem.Session: the state of a transfer (packet buffer, channel state, port) and its effects:
--   `stop` is an early return, `fault` an access out of the buffer, `out_of_fuel` a loop that ran
--   out of rounds. Xmodem.Buffer: loads and stores in a buffer by parts. Xmodem.Line: what a line
--   that works is, from the documentation of the primitives. Xmodem.Pauses: a line whose reads
--   time out where it pauses.
-- - Xmodem.Wait: `wait_for_rx_ready` and `purge`. Xmodem.Tx: `xmodem_tx`, cut into one function a
--   step. Xmodem.Rx: `xmodem_rx` likewise. Xmodem.Rx1: `xmodem_rx1`, a start of another receiver.
-- - Xmodem.Frame: the packets of the protocol. Below Xmodem.Tx: Pad and Fill for the data of a
--   packet, Round for one packet, Packets for the loop, Phases for the start and the end,
--   Transfer for the whole. Below Xmodem.Rx: Course for the protocol as the receiver keeps it,
--   First for the wait for a packet, Counter for its errors, Verdict for the tests of its data,
--   Packet for one packet, Reception for the loop, Transfer for the whole, Patience for the end
--   of its waits, Channel for the results of its channel, Mismatch for packets out of step,
--   Looks and Rounds for rounds of the loops. Rx.Transcript: what the receiver does on a line that
--   also pauses, with Waits and Packets for single steps, Outcome, Rounds and Runs for the loop,
--   Transfer for the whole, Lines for transcripts built from courses. Tx.Dialogue: the same for the
--   transmitter, with Closing for its end, Talk for its packets, Transfer for the whole, Every for
--   lines of every kind.
-- - Xmodem.Agreement: what the transmitter sends is a course for the receiver. Xmodem.RoundTrip:
--   the two at the ends of one line. Xmodem.Crossing: what a line may do to packets between the two,
--   Damage to the bytes of one, Courses for what it is to either end. Xmodem.NoisyRoundTrip: the
--   two on such a line. Xmodem.FallbackRoundTrip: a receiver that falls back to XMODEM.
--   Xmodem.LostAck: the two where the first ACK is damaged.
-- - Xmodem.Quiet: when `purge` ends. Xmodem.Invalid: transfers on a handle that is not valid.
--   Xmodem.Returns: how a run ends, with a rule for each way to build one. Xmodem.Safety, and Fits
--   and Safety below Tx and Rx: no access leaves the buffer, on any platform. Xmodem.Draining and
--   Tx.Termination, Rx.Fresh, Rx.Answers, Rx.Termination: transfers end where only so many bytes
--   come and the hardware has no errors.
-- - Platform.Dos: the primitives of src/dos/serprim.c, over the PICTOR library, a parameter.
--   Platform.Hdmi2usb: those of src/hdmi2usb/serprim.c and src/hdmi2usb-or1k/serprim.c, which are
--   equal, over the SoC, a parameter; Loop has the loop of a read, Laws what the primitives do,
--   Interface has them as a Serprim on an SoC on which every wait ends, and Turn is about waits that
--   are longer than a turn of the timer. Platform.Windows: those of src/windows/serprim.c, over the
--   Win32 calls, a parameter, with Laws and Interface likewise.
--   Platform.Dummy: the ports of test/serprim.c, on which the unit tests run; Wiring and Queue have
--   their lines as queues, Laws what the ports do.
-- - Tests: a line that works as a platform that runs, and one application of each theorem.
--
-- Choices. A buffer is a list of bytes; a `char` is its bit pattern. The widths of `unsigned int`
-- and of `size_t` are fields of the platform. Loops without a bound in the code take fuel, one
-- unit a round, and a theorem about a result says how much is enough: one round more than the
-- characters before the answer that ends the loop, or than the bytes that are still to come. The
-- loop of the receiver that counts its errors is given the 13 rounds that the counter allows.
--
-- A sum or a product of `int`s that no `int` holds is undefined in C; where the code can get there,
-- in the cycles of the HDMI2USB timer, the platform has a parameter for what it then is. The loops of
-- the checksum and the CRC run over their octets, which are fewer than an `unsigned int` counts:
-- 1026 at most for the callers.
--
-- Not modelled: `sfl_rx`, which modem.h declares and nothing defines; the unit tests under test; the
-- build files.
pub mod Prelude
pub mod Bits
pub mod Crc
pub mod Platform
pub mod Serial
pub mod Modem
pub mod Xmodem
mod Tests
