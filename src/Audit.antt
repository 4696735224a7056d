-- ===== src/Audit.antt =====
-- crates/audit-local: the command that runs an audit.
pub mod Failure
pub mod Config
pub mod Preflight
pub mod Outcome
pub mod World
pub mod Run
