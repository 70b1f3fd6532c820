-- ===== src/Nsid.antt =====
-- The NSID manager and the TrustZone shim, lib/nsid_manager, and the named threads of app_broker.
pub mod Manager
pub mod Slots
pub mod Refines
pub mod Shim
pub mod Contexts
pub mod Threads
mod Tests
