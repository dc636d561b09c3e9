-- ===== src/Platform.antt =====
-- The platforms below src/serprim.h.
pub mod Dos
pub mod Dummy
pub mod Hdmi2usb
pub mod Windows
