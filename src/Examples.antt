-- ===== src/Examples.antt =====
-- The theorems at concrete inputs, and tests.
pub mod Samples
pub mod Evaluation
pub mod Resources
pub mod Ingesting
pub mod Migrating
pub mod Scripts
pub mod Writing
pub mod Checking
pub mod Auditing
pub mod Assembling
pub mod Reporting
