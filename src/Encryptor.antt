-- ===== src/Encryptor.antt =====
-- tools/tinymaix_model_encryptor.py: the program that makes the encrypted package on a host.
pub mod Text
pub mod Header
pub mod Run
pub mod Keys
pub mod Package
pub mod Source
pub mod Workflow
pub mod Searching
pub mod Rows
pub mod Matching
pub mod RoundTrip
pub mod Passing
pub mod KeyFiles
pub mod Outcomes
pub mod Exits
pub mod Failing
pub mod Chosen
pub mod Overwriting
pub mod Parsing
pub mod Written
pub mod Output
pub mod Deployed
mod Tests
