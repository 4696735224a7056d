-- ===== src/Domain.antt =====
-- crates/core/src/domain: the rule and finding types of the audit.
pub mod Rule
pub mod Finding
pub mod Valid
