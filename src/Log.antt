-- ===== src/Log.antt =====
-- The raw log, lib/log.
pub mod Printer
pub mod Digits
pub mod Text
pub mod Hex
pub mod Format
pub mod Emits
pub mod Rendering
pub mod Texts
pub mod Logged
mod Tests
