-- ===== src/Xmodem.antt =====
-- src/xmodem.c
pub mod Session
pub mod Wait
pub mod Tx
pub mod Rx
pub mod Rx1
pub mod Buffer
pub mod Line
pub mod Pauses
pub mod Frame
pub mod Agreement
pub mod Crossing
pub mod RoundTrip
pub mod NoisyRoundTrip
pub mod FallbackRoundTrip
pub mod LostAck
pub mod Quiet
pub mod Invalid
pub mod Returns
pub mod Safety
pub mod Draining
