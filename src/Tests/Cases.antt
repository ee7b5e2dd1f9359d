-- ===== src/Tests/Cases.antt =====
-- The tables of the program's own unit tests, run on the model: in each child module a list of inputs,
-- a list of the answers that the tests expect, and that the model gives them.
pub mod ManagedFields
pub mod FieldPaths
pub mod Conditions
pub mod Reconciling
pub mod Handling
pub mod Applying
pub mod Access
pub mod Kubeconfigs
pub mod Stopping
pub mod Watching
pub mod Starting
pub mod Metering
pub mod Mapped
pub mod MappingErrors
pub mod Cloned
pub mod Serving
pub mod Utilities
pub mod Definitions
pub mod Registering
