-- ===== src/Inference.antt =====
-- The TinyMaix inference partition, partitions/tinymaix_inference/tinymaix_inference.c.
pub mod State
pub mod KeyDerivation
pub mod Padding
pub mod Decrypt
pub mod Output
pub mod Service
pub mod Argmax
pub mod Keeps
pub mod Stages
pub mod Outcomes
pub mod Release
pub mod Armed
pub mod Serving
pub mod Replies
pub mod Secrecy
pub mod Unknowns
pub mod ModelKey
pub mod GivenKey
pub mod Accepted
pub mod Images
pub mod Unpadding
pub mod RoundTrip
pub mod Samples
mod Tests
