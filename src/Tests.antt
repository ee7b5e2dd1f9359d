-- ===== src/Tests.antt =====
-- Runs of the model at concrete inputs: a ResourceSync like the one of src/lib.rs's `test_support`,
-- servers that answer from a fixed state, and crates that are concrete functions.
pub mod Fixtures
pub mod Crates
pub mod Script
pub mod Controllers
pub mod Runs
pub mod Lives
pub mod Confinement
pub mod Made
pub mod Serving
pub mod Mappings
pub mod Watchers
pub mod Listening
pub mod Cases
