-- ===== src/Client.antt =====
-- The client interface, interface/src.
pub mod Api
pub mod Closing
pub mod EndToEnd
pub mod Inferring
pub mod Loading
mod Tests
