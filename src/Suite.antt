-- ===== src/Suite.antt =====
-- The application: the tests of nspe.
mod Echo
mod EchoVerdict
mod Crypto
mod Keys
mod CryptoVerdict
mod Maix
mod MaixVerdict
mod Runner
mod Connections
mod Tests
