-- ===== src/Tests.antt =====
-- The theorems at concrete inputs.
mod Loopback
mod Crc
mod Serial
mod Transfers
mod Receptions
mod RoundTrips
mod NoisyLines
mod SlowLoopback
mod SlowLines
mod SlowDialogues
mod LostAcks
mod Platforms
mod Dummies
mod Waits
mod Endings
mod Socs
mod Timers
mod Windows
